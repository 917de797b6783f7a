-- ===== src/RateLimitDependencies.antt =====
-- rate_limit_dependencies.py. The request's client host comes as an argument, `none` if the request
-- has no client; the two limiters are the ones that the program builds from its settings.
pub mod Enforcement
use fastapi_task_api.Base.{
  ℕ, Option, none, some, List, [], ◌∷◌, Result, ok, err, Error, redis_error, http_exception, Exec,
}
use fastapi_task_api.Base.Int.{ℤ, pos}
use fastapi_task_api.Base.Text.{Text, codes, str}
use fastapi_task_api.RateLimiting
use fastapi_task_api.RateLimiting.{FixedWindowRateLimiter}
use fastapi_task_api.Redis.{Redis}
use fastapi_task_api.RedisRateLimiting
use fastapi_task_api.RedisRateLimiting.{RedisFixedWindowRateLimiter}

-- `get_login_rate_limiter`
unfoldable pub get_login_rate_limiter : ℤ → ℤ → Result RedisFixedWindowRateLimiter
get_login_rate_limiter login_rate_limit login_rate_window_seconds =
    RedisRateLimiting.create login_rate_limit login_rate_window_seconds (codes "rate_limit:login")

abbrev pub client_host : Option Text → Text
client_host (some host) = host
client_host none = codes "unknown"

unfoldable pub too_many_requests : ℕ → Error
too_many_requests retry_after_seconds =
    http_exception 429 "Too many login attempts"
      (("Retry-After", str (pos retry_after_seconds)) ∷ [])

abbrev pub refuse_if : Option ℕ → Result (Unit {0})
refuse_if none = ok tt
refuse_if (some retry_after_seconds) = err (too_many_requests retry_after_seconds)

-- The state behind the endpoint: the Redis server, and the limiter in the process.
pub record Limiters (State : Type 0) : Type 0 where
  pub redis_state : State
  pub fallback : FixedWindowRateLimiter

module _ (redis : Redis) where
  open redis use {State}

  -- What follows `rate_limiter.check`: the `except RedisError` clause, then the decision.
  unfoldable pub after_check :
      ℕ
      → Text
      → Result (Option ℕ) × State
      → FixedWindowRateLimiter
      → Result (Unit {0}) × Limiters State
  after_check now host (ok retry_after_seconds, s) fallback =
      (refuse_if retry_after_seconds, record { redis_state = s; fallback = fallback })
  after_check now host (err redis_error, s) fallback =
      let (retry_after_seconds, fallback') = RateLimiting.check now host fallback in
      (refuse_if retry_after_seconds, record { redis_state = s; fallback = fallback' })
  after_check now host (err e, s) fallback =
      (err e, record { redis_state = s; fallback = fallback })

  unfoldable pub enforce_login_rate_limit :
      RedisFixedWindowRateLimiter → ℕ → Option Text → Exec (Limiters State) (Unit {0})
  unfolding after_check
  enforce_login_rate_limit rate_limiter now client limiters =
      after_check now (client_host client)
        (RedisRateLimiting.check redis rate_limiter (client_host client) limiters.redis_state)
        limiters.fallback
