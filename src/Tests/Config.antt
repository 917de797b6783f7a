-- ===== src/Tests/Config.antt =====
-- config.py with its defaults.
use fastapi_task_api.Base.{◌≡◌, ◌≤◌, refl, true, [], ◌∷◌}
use fastapi_task_api.Base.Int.{pos, ◌≤ℤ◌}
use fastapi_task_api.Base.Text.{codes}
use fastapi_task_api.Config.{
  Settings, is_settings, is_external_service, is_cache, is_login, is_between, is_positive_to,
  seconds, external_service_circuit_breaker, retry_arguments, fallback_login_rate_limiter,
  get_task_cache, get_task_cache_lock, get_websocket_ticket_store,
}
use fastapi_task_api.Config.Acceptance.{IsBuilt, settings_build}
use fastapi_task_api.ExternalService.Requests.{AreAccepted}
use fastapi_task_api.RateLimitDependencies.{get_login_rate_limiter}

abbrev pub defaults : Settings
defaults = record {
  external_service_url = codes "https://example.com";
  database_url = codes "sqlite:///./test.db";
  redis_url = codes "redis://127.0.0.1:6379/0";
  jwt_secret_key = codes "secret";
  jwt_algorithm = codes "HS256";
  cors_allowed_origins = codes "http://localhost:5173" ∷ [];
  access_token_expire_minutes = pos 30;
  external_service_max_attempts = pos 3;
  external_service_base_delay = pos 500000000;
  external_service_max_delay = pos (seconds 5);
  external_service_total_timeout = pos (seconds 15);
  external_service_failure_threshold = pos 3;
  external_service_recovery_timeout = pos (seconds 30);
  login_rate_limit = pos 5;
  login_rate_window_seconds = pos 60;
  task_cache_ttl_seconds = pos 300;
  task_negative_cache_ttl_seconds = pos 30;
  task_cache_ttl_jitter_seconds = pos 60;
  task_cache_lock_ttl_seconds = pos 5;
  task_cache_lock_wait_attempts = pos 5;
  task_cache_lock_wait_seconds = pos 50000000;
  websocket_ticket_ttl_seconds = pos 30;
}

pub defaults-accepted : is_settings defaults ≡ true
unfolding is_settings is_external_service is_cache is_login is_between is_positive_to
defaults-accepted = refl

settings_build_example :
    AreAccepted (retry_arguments defaults)
    × IsBuilt (external_service_circuit_breaker defaults)
    × IsBuilt (get_task_cache defaults)
    × IsBuilt (get_task_cache_lock defaults)
    × IsBuilt (get_login_rate_limiter (pos 5) (pos 60))
    × IsBuilt (get_websocket_ticket_store defaults)
    × (pos 1 ≤ℤ pos 5)
    × (pos 0 ≤ℤ pos 50000000)
    × (1 ≤ 5)
    × (1 ≤ 60)
    × (pos 1 ≤ℤ pos 30)
unfolding fallback_login_rate_limiter
settings_build_example = settings_build defaults defaults-accepted
