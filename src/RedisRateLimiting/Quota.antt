-- ===== src/RedisRateLimiting/Quota.antt =====
-- redis_rate_limiting.py: how many requests of a client pass while its key lives.
use fastapi_task_api.Base.{
  ℕ, zero, suc, ◌+◌, ◌-◌, ◌≡◌, max, min, none, some, ok, err, ltb, ◌==◌, if◌then◌else◌, arith,
}
use fastapi_task_api.Base.Int.{pos, pos_part}
use fastapi_task_api.Base.Text.{Text}
use fastapi_task_api.Base.Eq.{text_eq}
use fastapi_task_api.Base.Dict.{=?_refl}
use fastapi_task_api.Redis.{Redis, delivered}
use fastapi_task_api.Redis.Laws.{CounterLaws}
use fastapi_task_api.RedisRateLimiting.{
  RedisFixedWindowRateLimiter, client_redis_key, fixed_window_script, check,
}

-- Calls reach the server, and between them no counter changes: no key expires, and no other client
-- counts.
pub record IsQuiet (redis : Redis) (laws : CounterLaws redis) : Type 0 where
  pub delivers : (s : redis.State) → redis.fault s ≡ delivered
  pub keeps : (s : redis.State) (k : Text) → laws.counter (redis.arrive s) k ≡ laws.counter s k

module _ (redis : Redis) (laws : CounterLaws redis) (limiter : RedisFixedWindowRateLimiter)
    (client : Text) where
  open redis use {State}
  open laws use {counter, remaining}

  abbrev pub key : Text
  key = client_redis_key limiter client

  -- The script counts the request, and gives the key its lifetime when it is the first.
  script_lem :
      (k : Text) (window : ℕ) (s : State)
      → let (r, s') = fixed_window_script redis k window s in
        (r.0 ≡ counter s k + 1)
        × (r.1 ≡ (if counter s k == 0 then pos window else remaining s k))
        × (counter s' k ≡ counter s k + 1)
        × (remaining s' k ≡ (if counter s k == 0 then pos window else remaining s k))
  unfolding fixed_window_script
  script_lem k window s =
      let s₁ = (redis.incr k s).1 in
      let e₁ = (redis.expire k window s₁).1 in
      ground (
        arith,
        laws.incr_reply k s,
        laws.incr_counter k s k,
        =?_refl k,
        laws.incr_remaining k s k,
        laws.expire_counter k window s₁ k,
        laws.expire_remaining k window s₁,
        laws.ttl_reply k e₁,
        laws.ttl_counter k e₁ k,
        laws.ttl_remaining k e₁ k,
        laws.ttl_reply k s₁,
        laws.ttl_counter k s₁ k,
        laws.ttl_remaining k s₁ k,
      )

  -- A check that the network delivers lets the request pass exactly if fewer than `request_limit`
  -- have been counted at the client's key when it arrives, and counts it. The first request of a key
  -- gives it `window_seconds` to live, later ones leave its lifetime alone, and a refused client is
  -- told to wait for what is left of it, at least 1 second.
  pub check_decides :
      (s : State)
      → redis.fault s ≡ delivered
      → let n = counter (redis.arrive s) key in
        let (answer, s') = check redis limiter client s in
        (answer ≡ (
          if ltb n limiter.request_limit
          then ok none
          else ok (some (max 1 (pos_part (remaining s' key))))))
        × (counter s' key ≡ n + 1)
        × (remaining s' key
            ≡ (if n == 0 then pos limiter.window_seconds else remaining (redis.arrive s) key))
  unfolding check
  check_decides s sent = ground (arith, script_lem key limiter.window_seconds (redis.arrive s))

  -- The requests of the client that pass, of `n` in a row.
  pub passed : ℕ → State → ℕ
  passed zero s = 0
  passed (suc n) s =
      let (answer, s') = check redis limiter client s in
      (elim answer [ ok none ↦ 1 | ok (some seconds) ↦ 0 | err e ↦ 0 ]) + passed n s'

  -- With quiet calls, of `n` requests in a row exactly as many pass as the limit has room for.
  pub limiter_quota :
      (n : ℕ) (s : State)
      → IsQuiet redis laws
      → passed n s ≡ min n (limiter.request_limit - counter s key)
  unfolding passed
  limiter_quota zero s quiet = omega arith
  limiter_quota (suc n) s quiet = ground (
    arith,
    check_decides s (quiet.delivers s),
    quiet.keeps s key,
    limiter_quota n (check redis limiter client s).1 quiet,
  )
