-- ===== src/Config.antt =====
-- config.py, and what main.py and the dependencies build from it. Settings in seconds that may have a
-- fraction are counted in ticks.
pub mod Acceptance
pub mod Environment
pub mod Once
use fastapi_task_api.Base.{ℕ, ◌*◌, ◌&&◌, Bool, Result, List, [], if◌then◌else◌}
use fastapi_task_api.Base.Int.{ℤ, pos, pos_part, leb_ℤ, ltb_ℤ}
use fastapi_task_api.Base.Text.{Text}
use fastapi_task_api.CircuitBreaker
use fastapi_task_api.CircuitBreaker.{CircuitBreaker}
use fastapi_task_api.ExternalService.{RetryArguments}
use fastapi_task_api.RateLimiting.{FixedWindowRateLimiter, ticks_per_second}
use fastapi_task_api.RedisLock
use fastapi_task_api.RedisLock.{RedisLock}
use fastapi_task_api.Security.{TokenSettings}
use fastapi_task_api.TaskCache
use fastapi_task_api.TaskCache.{TaskCache}
use fastapi_task_api.WebsocketTickets
use fastapi_task_api.WebsocketTickets.{WebSocketTicketStore}

pub record Settings : Type 0 where
  pub external_service_url : Text
  pub database_url : Text
  pub redis_url : Text
  pub jwt_secret_key : Text
  pub jwt_algorithm : Text
  pub access_token_expire_minutes : ℤ
  pub cors_allowed_origins : List Text
  pub external_service_max_attempts : ℤ
  pub external_service_base_delay : ℤ
  pub external_service_max_delay : ℤ
  pub external_service_total_timeout : ℤ
  pub external_service_failure_threshold : ℤ
  pub external_service_recovery_timeout : ℤ
  pub login_rate_limit : ℤ
  pub login_rate_window_seconds : ℤ
  pub task_cache_ttl_seconds : ℤ
  pub task_negative_cache_ttl_seconds : ℤ
  pub task_cache_ttl_jitter_seconds : ℤ
  pub task_cache_lock_ttl_seconds : ℤ
  pub task_cache_lock_wait_attempts : ℤ
  pub task_cache_lock_wait_seconds : ℤ
  pub websocket_ticket_ttl_seconds : ℤ

-- `Field(ge=low, le=high)` and `Field(gt=0.0, le=high)`
unfoldable pub is_between : ℕ → ℕ → ℤ → Bool
is_between low high value = leb_ℤ (pos low) value && leb_ℤ value (pos high)

unfoldable pub is_positive_to : ℕ → ℤ → Bool
is_positive_to high value = ltb_ℤ (pos 0) value && leb_ℤ value (pos high)

abbrev pub seconds : ℕ → ℕ
seconds n = n * ticks_per_second

-- `Settings` accepts the values.
unfoldable pub is_external_service : Settings → Bool
is_external_service s =
    is_between 1 5 s.external_service_max_attempts
    && (is_between 0 (seconds 10) s.external_service_base_delay
        && (is_between 0 (seconds 30) s.external_service_max_delay
            && (is_positive_to (seconds 60) s.external_service_total_timeout
                && (is_between 1 20 s.external_service_failure_threshold
                    && is_positive_to (seconds 300) s.external_service_recovery_timeout))))

unfoldable pub is_cache : Settings → Bool
is_cache s =
    is_between 1 86400 s.task_cache_ttl_seconds
    && (is_between 1 300 s.task_negative_cache_ttl_seconds
        && (is_between 0 3600 s.task_cache_ttl_jitter_seconds
            && (is_between 1 60 s.task_cache_lock_ttl_seconds
                && (is_between 1 20 s.task_cache_lock_wait_attempts
                    && is_positive_to (seconds 1) s.task_cache_lock_wait_seconds))))

unfoldable pub is_login : Settings → Bool
is_login s =
    is_between 1 100 s.login_rate_limit
    && (is_between 1 3600 s.login_rate_window_seconds
        && is_between 1 300 s.websocket_ticket_ttl_seconds)

unfoldable pub is_settings : Settings → Bool
is_settings s =
    is_external_service s
    && (is_cache s && (is_login s && is_between 1 1440 s.access_token_expire_minutes))

-- `CircuitBreaker(…)` in `lifespan`
unfoldable pub external_service_circuit_breaker : Settings → Result CircuitBreaker
external_service_circuit_breaker s =
    CircuitBreaker.create s.external_service_failure_threshold s.external_service_recovery_timeout

-- `FixedWindowRateLimiter(…)` in `lifespan`; the settings are positive.
unfoldable pub fallback_login_rate_limiter : Settings → FixedWindowRateLimiter
fallback_login_rate_limiter s = record {
  request_limit = pos_part s.login_rate_limit;
  window_seconds = pos_part s.login_rate_window_seconds;
  windows = [];
}

-- The arguments of the retries in `check_external_service`.
abbrev pub retry_arguments : Settings → RetryArguments
retry_arguments s = record {
  max_attempts = s.external_service_max_attempts;
  base_delay = s.external_service_base_delay;
  max_delay = s.external_service_max_delay;
  total_timeout = s.external_service_total_timeout;
}

unfoldable pub get_task_cache : Settings → Result TaskCache
get_task_cache s =
    TaskCache.create s.task_cache_ttl_seconds s.task_negative_cache_ttl_seconds
      s.task_cache_ttl_jitter_seconds

unfoldable pub get_task_cache_lock : Settings → Result RedisLock
get_task_cache_lock s = RedisLock.create s.task_cache_lock_ttl_seconds

unfoldable pub get_websocket_ticket_store : Settings → Result WebSocketTicketStore
get_websocket_ticket_store s = WebsocketTickets.create s.websocket_ticket_ttl_seconds

-- The settings that security.py reads; the minutes are positive.
abbrev pub token_settings : Settings → TokenSettings
token_settings s = record {
  jwt_secret_key = s.jwt_secret_key;
  jwt_algorithm = s.jwt_algorithm;
  access_token_expire_minutes = pos_part s.access_token_expire_minutes;
}
