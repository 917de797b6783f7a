-- ===== src/Config/Environment.antt =====
-- config.py: how `Settings()` gets its values, and `get_settings`. That pydantic-settings finds and
-- parses the variables of the environment and the file `.env` is left to it: an environment is what it
-- finds for each field.
use fastapi_task_api.Base.{
  ◌/◌, ◌&&◌, Bool, true, Option, none, some, Result, ok, err, validation_error, Exec, List, [], ◌∷◌,
  if◌then◌else◌,
}
use fastapi_task_api.Base.Int.{ℤ, pos}
use fastapi_task_api.Base.Text.{Text, codes}
use fastapi_task_api.Config.{Settings, is_between, is_positive_to, seconds}
use fastapi_task_api.RateLimiting.{ticks_per_second}

pub record Environment : Type 0 where
  pub external_service_url : Option Text
  pub database_url : Option Text
  pub redis_url : Option Text
  pub jwt_secret_key : Option Text
  pub jwt_algorithm : Option Text
  pub access_token_expire_minutes : Option ℤ
  pub cors_allowed_origins : Option (List Text)
  pub external_service_max_attempts : Option ℤ
  pub external_service_base_delay : Option ℤ
  pub external_service_max_delay : Option ℤ
  pub external_service_total_timeout : Option ℤ
  pub external_service_failure_threshold : Option ℤ
  pub external_service_recovery_timeout : Option ℤ
  pub login_rate_limit : Option ℤ
  pub login_rate_window_seconds : Option ℤ
  pub task_cache_ttl_seconds : Option ℤ
  pub task_negative_cache_ttl_seconds : Option ℤ
  pub task_cache_ttl_jitter_seconds : Option ℤ
  pub task_cache_lock_ttl_seconds : Option ℤ
  pub task_cache_lock_wait_attempts : Option ℤ
  pub task_cache_lock_wait_seconds : Option ℤ
  pub websocket_ticket_ttl_seconds : Option ℤ

-- A field with a default.
abbrev pub default : {A : Type 0} → A → Option A → A
default d none = d
default d (some a) = a

-- The fields, with a key for the one that has no default.
unfoldable pub fill : Text → Environment → Settings
fill jwt_secret_key env = record {
  external_service_url = default (codes "https://example.com") env.external_service_url;
  database_url = default (codes "sqlite:///./test.db") env.database_url;
  redis_url = default (codes "redis://127.0.0.1:6379/0") env.redis_url;
  jwt_secret_key = jwt_secret_key;
  jwt_algorithm = default (codes "HS256") env.jwt_algorithm;
  access_token_expire_minutes = default (pos 30) env.access_token_expire_minutes;
  cors_allowed_origins = default (codes "http://localhost:5173" ∷ []) env.cors_allowed_origins;
  external_service_max_attempts = default (pos 3) env.external_service_max_attempts;
  external_service_base_delay =
      default (pos (ticks_per_second / 2)) env.external_service_base_delay;
  external_service_max_delay = default (pos (seconds 5)) env.external_service_max_delay;
  external_service_total_timeout = default (pos (seconds 15)) env.external_service_total_timeout;
  external_service_failure_threshold = default (pos 3) env.external_service_failure_threshold;
  external_service_recovery_timeout =
      default (pos (seconds 30)) env.external_service_recovery_timeout;
  login_rate_limit = default (pos 5) env.login_rate_limit;
  login_rate_window_seconds = default (pos 60) env.login_rate_window_seconds;
  task_cache_ttl_seconds = default (pos 300) env.task_cache_ttl_seconds;
  task_negative_cache_ttl_seconds = default (pos 30) env.task_negative_cache_ttl_seconds;
  task_cache_ttl_jitter_seconds = default (pos 60) env.task_cache_ttl_jitter_seconds;
  task_cache_lock_ttl_seconds = default (pos 5) env.task_cache_lock_ttl_seconds;
  task_cache_lock_wait_attempts = default (pos 5) env.task_cache_lock_wait_attempts;
  task_cache_lock_wait_seconds =
      default (pos (ticks_per_second / 20)) env.task_cache_lock_wait_seconds;
  websocket_ticket_ttl_seconds = default (pos 30) env.websocket_ticket_ttl_seconds;
}

-- Pydantic checks the values that are given, and takes a default as it is.
abbrev pub is_given : (ℤ → Bool) → Option ℤ → Bool
is_given test none = true
is_given test (some value) = test value

unfoldable pub is_external_service_given : Environment → Bool
is_external_service_given env =
    is_given (is_between 1 5) env.external_service_max_attempts
    && (is_given (is_between 0 (seconds 10)) env.external_service_base_delay
        && (is_given (is_between 0 (seconds 30)) env.external_service_max_delay
            && (is_given (is_positive_to (seconds 60)) env.external_service_total_timeout
                && (is_given (is_between 1 20) env.external_service_failure_threshold
                    && is_given (is_positive_to (seconds 300))
                        env.external_service_recovery_timeout))))

unfoldable pub is_cache_given : Environment → Bool
is_cache_given env =
    is_given (is_between 1 86400) env.task_cache_ttl_seconds
    && (is_given (is_between 1 300) env.task_negative_cache_ttl_seconds
        && (is_given (is_between 0 3600) env.task_cache_ttl_jitter_seconds
            && (is_given (is_between 1 60) env.task_cache_lock_ttl_seconds
                && (is_given (is_between 1 20) env.task_cache_lock_wait_attempts
                    && is_given (is_positive_to (seconds 1)) env.task_cache_lock_wait_seconds))))

unfoldable pub is_login_given : Environment → Bool
is_login_given env =
    is_given (is_between 1 100) env.login_rate_limit
    && (is_given (is_between 1 3600) env.login_rate_window_seconds
        && is_given (is_between 1 300) env.websocket_ticket_ttl_seconds)

unfoldable pub is_accepted : Environment → Bool
is_accepted env =
    is_external_service_given env
    && (is_cache_given env
        && (is_login_given env && is_given (is_between 1 1440) env.access_token_expire_minutes))

abbrev pub keyed : Option Text → Environment → Result Settings
keyed none env = err validation_error
keyed (some jwt_secret_key) env =
    if is_accepted env then ok (fill jwt_secret_key env) else err validation_error

-- `Settings()`
unfoldable pub load : Environment → Result Settings
load env = keyed env.jwt_secret_key env

abbrev pub remember : Result Settings → Result Settings × Option Settings
remember (ok settings) = (ok settings, some settings)
remember (err e) = (err e, none)

-- `get_settings` with what `lru_cache` remembers, which is no exception.
unfoldable pub get_settings : Environment → Exec (Option Settings) Settings
get_settings env none = remember (load env)
get_settings env (some settings) = (ok settings, some settings)
