-- ===== src/RedisRateLimiting.antt =====
-- redis_rate_limiting.py: class RedisFixedWindowRateLimiter.
pub mod Quota
use fastapi_task_api.Base.{
  ℕ, max, Option, none, some, Result, ok, err, value_error, Exec, pure, ◌>>=◌, ◌++◌, ◌∷◌, leb, ◌==◌,
  if◌then◌else◌,
}
use fastapi_task_api.Base.Int.{ℤ, pos, pos_part, ltb_ℤ}
use fastapi_task_api.Base.Text.{Text, codes}
use fastapi_task_api.Redis.{Redis, call}

pub record RedisFixedWindowRateLimiter : Type 0 where
  pub request_limit : ℕ
  pub window_seconds : ℕ
  pub key_prefix : Text

unfoldable pub create : ℤ → ℤ → Text → Result RedisFixedWindowRateLimiter
create request_limit window_seconds key_prefix =
    if ltb_ℤ request_limit (pos 1)
    then err (value_error "request_limit must be at least 1")
    else if ltb_ℤ window_seconds (pos 1)
    then err (value_error "window_seconds must be at least 1")
    else ok (record {
      request_limit = pos_part request_limit;
      window_seconds = pos_part window_seconds;
      key_prefix = key_prefix;
    })

-- `f"{self._key_prefix}:{client_key}"`
unfoldable pub client_redis_key : RedisFixedWindowRateLimiter → Text → Text
client_redis_key limiter client_key = limiter.key_prefix ++ b':' ∷ client_key

-- The answer to what the script returned; `max(1, n)` of an integer is that of its positive part.
abbrev pub decide_wait : RedisFixedWindowRateLimiter → ℕ × ℤ → Option ℕ
decide_wait limiter (request_count, retry_after_seconds) =
    if leb request_count limiter.request_limit
    then none
    else some (max 1 (pos_part retry_after_seconds))

module _ (redis : Redis) where
  open redis use {State}

  -- `FIXED_WINDOW_SCRIPT`
  unfoldable pub fixed_window_script : Text → ℕ → State → (ℕ × ℤ) × State
  fixed_window_script key window_seconds s =
      let (request_count, s₁) = redis.incr key s in
      let s₂ = if request_count == 1 then (redis.expire key window_seconds s₁).1 else s₁ in
      let (retry_after_seconds, s₃) = redis.ttl key s₂ in ((request_count, retry_after_seconds), s₃)

  unfoldable pub check : RedisFixedWindowRateLimiter → Text → Exec State (Option ℕ)
  unfolding call client_redis_key
  check limiter client_key = do
    result ←
        call redis
          (fixed_window_script (client_redis_key limiter client_key) limiter.window_seconds)
    pure (decide_wait limiter result)
