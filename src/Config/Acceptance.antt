-- ===== src/Config/Acceptance.antt =====
-- config.py: what is built from accepted settings is accepted by the components.
use fastapi_task_api.Base.{ℕ, ◌≡◌, ◌≤◌, refl, Bool, true, false, Result, ok, err, arith, ◌&&◌}
use fastapi_task_api.Base.Int.{ℤ, pos, ◌≤ℤ◌}
use fastapi_task_api.CircuitBreaker
use fastapi_task_api.CircuitBreaker.{CircuitBreaker}
use fastapi_task_api.ExternalService.Requests.{AreAccepted}
use fastapi_task_api.RateLimitDependencies.{get_login_rate_limiter}
use fastapi_task_api.RedisLock
use fastapi_task_api.RedisRateLimiting
use fastapi_task_api.TaskCache
use fastapi_task_api.WebsocketTickets
use fastapi_task_api.Config.{
  Settings, is_settings, is_external_service, is_cache, is_login, is_between, is_positive_to,
  seconds, external_service_circuit_breaker, fallback_login_rate_limiter, retry_arguments,
  get_task_cache, get_task_cache_lock, get_websocket_ticket_store,
}

-- The value is built, and no `ValueError` raised.
abbrev pub IsBuilt : {A : Type 0} → Result A → Type 0
IsBuilt (ok a) = Unit
IsBuilt (err e) = ⊥

both : (a b : Bool) → (a && b) ≡ true → (a ≡ true) × (b ≡ true)
both true true h = (refl, refl)
both true false h = cc
both false b h = cc

between_low : (low high : ℕ) (v : ℤ) → is_between low high v ≡ true → pos low ≤ℤ v
unfolding is_between
between_low low high v h = ground arith

positive_low : (high : ℕ) (v : ℤ) → is_positive_to high v ≡ true → pos 1 ≤ℤ v
unfolding is_positive_to
positive_low high v h = ground arith

breaker-IsBuilt : (a b : ℤ) → pos 1 ≤ℤ a → pos 1 ≤ℤ b → IsBuilt (CircuitBreaker.create a b)
unfolding CircuitBreaker.create
breaker-IsBuilt a b ha hb = ground arith

cache-IsBuilt :
    (a b c : ℤ) → pos 1 ≤ℤ a → pos 1 ≤ℤ b → pos 0 ≤ℤ c → IsBuilt (TaskCache.create a b c)
unfolding TaskCache.create
cache-IsBuilt a b c ha hb hc = ground arith

lock-IsBuilt : (a : ℤ) → pos 1 ≤ℤ a → IsBuilt (RedisLock.create a)
unfolding RedisLock.create
lock-IsBuilt a ha = ground arith

limiter-IsBuilt : (a b : ℤ) → pos 1 ≤ℤ a → pos 1 ≤ℤ b → IsBuilt (get_login_rate_limiter a b)
unfolding get_login_rate_limiter RedisRateLimiting.create
limiter-IsBuilt a b ha hb = ground arith

store-IsBuilt : (a : ℤ) → pos 1 ≤ℤ a → IsBuilt (WebsocketTickets.create a)
unfolding WebsocketTickets.create
store-IsBuilt a ha = ground arith

external-IsBuilt :
    (s : Settings)
    → is_external_service s ≡ true
    → AreAccepted (retry_arguments s) × IsBuilt (external_service_circuit_breaker s)
unfolding is_external_service external_service_circuit_breaker
external-IsBuilt s h =
    let (attempts, h₁) = both (is_between 1 5 s.external_service_max_attempts) _ h in
    let (base, h₂) = both (is_between 0 (seconds 10) s.external_service_base_delay) _ h₁ in
    let (longest, h₃) = both (is_between 0 (seconds 30) s.external_service_max_delay) _ h₂ in
    let (total, h₄) = both (is_positive_to (seconds 60) s.external_service_total_timeout) _ h₃ in
    let (threshold, recovery) = both (is_between 1 20 s.external_service_failure_threshold) _ h₄ in
    let total_pos = positive_low (seconds 60) s.external_service_total_timeout total in
    (
      record {
        attempts_pos = between_low 1 5 s.external_service_max_attempts attempts;
        base_nonneg = between_low 0 (seconds 10) s.external_service_base_delay base;
        max_nonneg = between_low 0 (seconds 30) s.external_service_max_delay longest;
        timeout_pos = ground (arith, total_pos);
      },
      breaker-IsBuilt s.external_service_failure_threshold s.external_service_recovery_timeout
          (between_low 1 20 s.external_service_failure_threshold threshold)
          (positive_low (seconds 300) s.external_service_recovery_timeout recovery),
    )

cache_accepted :
    (s : Settings)
    → is_cache s ≡ true
    → IsBuilt (get_task_cache s)
      × IsBuilt (get_task_cache_lock s)
      × (pos 1 ≤ℤ s.task_cache_lock_wait_attempts)
      × (pos 0 ≤ℤ s.task_cache_lock_wait_seconds)
unfolding is_cache get_task_cache get_task_cache_lock
cache_accepted s h =
    let (ttl, h₁) = both (is_between 1 86400 s.task_cache_ttl_seconds) _ h in
    let (negative, h₂) = both (is_between 1 300 s.task_negative_cache_ttl_seconds) _ h₁ in
    let (jitter, h₃) = both (is_between 0 3600 s.task_cache_ttl_jitter_seconds) _ h₂ in
    let (lock, h₄) = both (is_between 1 60 s.task_cache_lock_ttl_seconds) _ h₃ in
    let (attempts, wait) = both (is_between 1 20 s.task_cache_lock_wait_attempts) _ h₄ in
    (
      cache-IsBuilt s.task_cache_ttl_seconds s.task_negative_cache_ttl_seconds
          s.task_cache_ttl_jitter_seconds (between_low 1 86400 s.task_cache_ttl_seconds ttl)
          (between_low 1 300 s.task_negative_cache_ttl_seconds negative)
          (between_low 0 3600 s.task_cache_ttl_jitter_seconds jitter),
      lock-IsBuilt s.task_cache_lock_ttl_seconds
          (between_low 1 60 s.task_cache_lock_ttl_seconds lock),
      between_low 1 20 s.task_cache_lock_wait_attempts attempts,
      omega (arith, positive_low (seconds 1) s.task_cache_lock_wait_seconds wait),
    )

login_accepted :
    (s : Settings)
    → is_login s ≡ true
    → IsBuilt (get_login_rate_limiter s.login_rate_limit s.login_rate_window_seconds)
      × IsBuilt (get_websocket_ticket_store s)
      × (1 ≤ (fallback_login_rate_limiter s).request_limit)
      × (1 ≤ (fallback_login_rate_limiter s).window_seconds)
unfolding is_login fallback_login_rate_limiter get_websocket_ticket_store
login_accepted s h =
    let (limit, h₁) = both (is_between 1 100 s.login_rate_limit) _ h in
    let (window, ticket) = both (is_between 1 3600 s.login_rate_window_seconds) _ h₁ in
    let limit_pos = between_low 1 100 s.login_rate_limit limit in
    let window_pos = between_low 1 3600 s.login_rate_window_seconds window in
    (
      limiter-IsBuilt s.login_rate_limit s.login_rate_window_seconds limit_pos window_pos,
      store-IsBuilt s.websocket_ticket_ttl_seconds
          (between_low 1 300 s.websocket_ticket_ttl_seconds ticket),
      ground (arith, limit_pos),
      ground (arith, window_pos),
    )

-- With settings that are accepted, every component is built without a `ValueError`: the circuit
-- breaker, the cache of tasks, its lock, the limiter of logins and the store of tickets. The retries
-- and the wait for the cache accept their arguments, and the limiter in the process allows at least
-- one request in a window of at least a second. Access tokens live for at least a minute.
pub settings_build :
    (s : Settings)
    → is_settings s ≡ true
    → AreAccepted (retry_arguments s)
      × IsBuilt (external_service_circuit_breaker s)
      × IsBuilt (get_task_cache s)
      × IsBuilt (get_task_cache_lock s)
      × IsBuilt (get_login_rate_limiter s.login_rate_limit s.login_rate_window_seconds)
      × IsBuilt (get_websocket_ticket_store s)
      × (pos 1 ≤ℤ s.task_cache_lock_wait_attempts)
      × (pos 0 ≤ℤ s.task_cache_lock_wait_seconds)
      × (1 ≤ (fallback_login_rate_limiter s).request_limit)
      × (1 ≤ (fallback_login_rate_limiter s).window_seconds)
      × (pos 1 ≤ℤ s.access_token_expire_minutes)
unfolding is_settings
settings_build s h =
    let (external, h₁) = both (is_external_service s) _ h in
    let (cache, h₂) = both (is_cache s) _ h₁ in
    let (login, token) = both (is_login s) _ h₂ in
    let (retries, breaker) = external-IsBuilt s external in
    let (tasks, lock, attempts, wait) = cache_accepted s cache in
    let (limiter, tickets, limit, window) = login_accepted s login in
    (
      retries,
      breaker,
      tasks,
      lock,
      limiter,
      tickets,
      attempts,
      wait,
      limit,
      window,
      between_low 1 1440 s.access_token_expire_minutes token,
    )
