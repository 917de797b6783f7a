-- ===== src/Tests/Application.antt =====
-- main.py, middlewares.py on concrete runs.
use fastapi_task_api.Base.{
  ◌≡◌, refl, true, some, ok, err, Error, Result, timeout_error, other_error, Exec, none, [], ◌∷◌,
}
use fastapi_task_api.Base.Text.{codes, lower}
use fastapi_task_api.Base.Dict.{lookup}
use fastapi_task_api.Base.Eq.{text_eq}
use fastapi_task_api.Application.{Libraries, Outcomes, lifespan}
use fastapi_task_api.Application.Startup.{
  Program, import_program, start_program, with_settings, program_starts,
}
use fastapi_task_api.Config.{Settings}
use fastapi_task_api.Config.Environment.{
  Environment, load, get_settings, fill, is_accepted, is_external_service_given, is_cache_given,
  is_login_given,
}
use fastapi_task_api.Application.Shutdown.{IsOrderly}
use fastapi_task_api.Middlewares.{
  RequestState, Response, answer_request, x_request_id, x_process_time, register_middlewares,
}
use fastapi_task_api.Middlewares.RequestIds.{IsAnswered, contains, request_id_everywhere}

-- Redis does not confirm the subscription in time.
abbrev late : Outcomes
late = record {
  subscribed = err timeout_error;
  opened = ok tt;
  served = ok tt;
  closed_client = ok tt;
  listened = ok tt;
  closed_redis = ok tt;
}

-- The handlers raise an exception that nothing handles.
abbrev crash : Exec RequestState Response
crash s = (err other_error, s)

request_id_everywhere_example :
    let response = answer_request (codes "4f") (codes "0.000100") crash in
    (lookup (lower x_request_id) response.headers ≡ some (codes "4f"))
    × IsAnswered (codes "4f") (codes "0.000100") (err other_error) response
    × (contains x_request_id (register_middlewares []).expose_headers ≡ true)
    × (contains x_process_time (register_middlewares []).expose_headers ≡ true)
request_id_everywhere_example = request_id_everywhere (codes "4f") (codes "0.000100") crash [] refl

-- Only the secret key is given; later it is missing.
abbrev given_key : Environment
given_key = record {
  external_service_url = none;
  database_url = none;
  redis_url = none;
  jwt_secret_key = some (codes "secret");
  jwt_algorithm = none;
  access_token_expire_minutes = none;
  cors_allowed_origins = none;
  external_service_max_attempts = none;
  external_service_base_delay = none;
  external_service_max_delay = none;
  external_service_total_timeout = none;
  external_service_failure_threshold = none;
  external_service_recovery_timeout = none;
  login_rate_limit = none;
  login_rate_window_seconds = none;
  task_cache_ttl_seconds = none;
  task_negative_cache_ttl_seconds = none;
  task_cache_ttl_jitter_seconds = none;
  task_cache_lock_ttl_seconds = none;
  task_cache_lock_wait_attempts = none;
  task_cache_lock_wait_seconds = none;
  websocket_ticket_ttl_seconds = none;
}

abbrev imported : Program
imported = record {
  database_url = codes "sqlite:///./test.db";
  cors = register_middlewares (codes "http://localhost:5173" ∷ []);
}

-- Both URLs are well formed.
abbrev usable : Libraries
usable = record { from_url = λ url. ok tt; create_engine = λ url. ok tt }

imports : (import_program usable given_key none).0 ≡ ok imported
unfolding import_program get_settings load fill is_accepted is_external_service_given is_cache_given
    is_login_given
imports = refl

abbrev ok_unit : Result (Unit {0})
ok_unit = ok tt

program_starts_example :
    let later = record given_key { jwt_secret_key = none } in
    (settings : Settings) × (load given_key ≡ ok settings)
    × (imported ≡ with_settings settings)
    × (ok_unit ≡ ok_unit)
    × ((start_program usable later late (import_program usable given_key none).1).0
        ≡ ok (lifespan usable settings late []))
    × (ok_unit ≡ ok_unit → IsOrderly late (lifespan usable settings late []))
    × ((e : Error) → ok_unit ≡ err e → lifespan usable settings late [] ≡ (err e, []))
program_starts_example =
    program_starts usable given_key (record given_key { jwt_secret_key = none }) late imported
      imports
