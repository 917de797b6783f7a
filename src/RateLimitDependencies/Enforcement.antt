-- ===== src/RateLimitDependencies/Enforcement.antt =====
-- rate_limit_dependencies.py: every login attempt is decided by a limiter, whatever Redis does.
use fastapi_task_api.Base.{ℕ, ◌≡◌, ◌≢◌, Option, Result, ok, err, http_exception, arith}
use fastapi_task_api.Base.Text.{Text}
use fastapi_task_api.RateLimiting
use fastapi_task_api.RateLimiting.{FixedWindowRateLimiter}
use fastapi_task_api.Redis.{Redis, delivered}
use fastapi_task_api.RedisRateLimiting
use fastapi_task_api.RedisRateLimiting.{RedisFixedWindowRateLimiter}
use fastapi_task_api.RateLimitDependencies.{
  client_host, too_many_requests, refuse_if, Limiters, enforce_login_rate_limit,
}

-- The attempt goes on, or ends in a 429.
abbrev pub IsDecision : Result (Unit {0}) → Type 0
IsDecision (ok _) = Unit
IsDecision (err (http_exception status detail headers)) = status ≡ 429
IsDecision (err _) = ⊥

-- What the answer of the limiter in Redis comes to.
abbrev pub settle : Result (Option ℕ) → Result (Unit {0})
settle (ok retry_after_seconds) = refuse_if retry_after_seconds
settle (err e) = err e

module _ (redis : Redis) (rate_limiter : RedisFixedWindowRateLimiter) (now : ℕ)
    (client : Option Text) where
  open redis use {State}

  -- Every attempt goes on or ends in a 429, whatever Redis does. If the network delivers the call,
  -- the limiter in Redis decides and the limiter in the process stays as it is; otherwise the
  -- limiter in the process decides, and counts the attempt.
  pub enforcement :
      (l : Limiters State)
      → let (answer, l') = enforce_login_rate_limit redis rate_limiter now client l in
        let local = RateLimiting.check now (client_host client) l.fallback in
        let remote =
          RedisRateLimiting.check redis rate_limiter (client_host client) l.redis_state in
        IsDecision answer
        × (redis.fault l.redis_state ≡ delivered
            → (answer ≡ settle remote.0) × (l'.fallback ≡ l.fallback))
        × (redis.fault l.redis_state ≢ delivered
            → (answer ≡ refuse_if local.0) × (l'.fallback ≡ local.1))
  unfolding enforce_login_rate_limit RedisRateLimiting.check too_many_requests
  enforcement l = (ground arith, λ sent. ground arith, λ lost. ground arith)
