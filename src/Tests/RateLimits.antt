-- ===== src/Tests/RateLimits.antt =====
-- rate_limiting.py, redis_rate_limiting.py, rate_limit_dependencies.py on concrete requests.
use fastapi_task_api.Base.{◌≡◌, ◌≢◌, refl, some, Result, [], ◌∷◌, arith}
use fastapi_task_api.Base.Text.{Text, codes}
use fastapi_task_api.Base.Dict.{lookup, insert}
use fastapi_task_api.Base.Eq.{text_eq}
use fastapi_task_api.RateLimiting
use fastapi_task_api.RateLimiting.{FixedWindow, FixedWindowRateLimiter, ticks_per_second}
use fastapi_task_api.RateLimiting.Quota as LocalQuota
use fastapi_task_api.RateLimiting.Quota.{window_quota, refusal_wait, clients_apart}
use fastapi_task_api.Redis.{delivered, request_lost}
use fastapi_task_api.Redis.Server.{Memory, empty, quiet, quiet_counter_laws, server, fault_of, tick}
use fastapi_task_api.RedisRateLimiting
use fastapi_task_api.RedisRateLimiting.{
  RedisFixedWindowRateLimiter, client_redis_key, fixed_window_script,
}
use fastapi_task_api.RedisRateLimiting.Quota as RemoteQuota
use fastapi_task_api.RedisRateLimiting.Quota.{check_decides, limiter_quota}
use fastapi_task_api.RateLimitDependencies.{Limiters, refuse_if, enforce_login_rate_limit}
use fastapi_task_api.RateLimitDependencies.Enforcement.{IsDecision, settle, enforcement}

-- Two requests in 10 seconds.
abbrev two_in_ten : FixedWindowRateLimiter
two_in_ten = record { request_limit = 2; window_seconds = 10; windows = [] }

abbrev host : Text
host = codes "10.0.0.1"

abbrev other_host : Text
other_host = codes "10.0.0.2"

-- The third request, 4.5 seconds into the window, waits for 6 seconds.
third_waits :
    let l₁ = (RateLimiting.check 0 host two_in_ten).1 in
    let l₂ = (RateLimiting.check 1 host l₁).1 in (RateLimiting.check 4500000000 host l₂).0 ≡ some 6
unfolding RateLimiting.check RateLimiting.check_window RateLimiting.store_window lookup insert
third_waits = refl

window_quota_example : LocalQuota.passed host (100 ∷ 101 ∷ 102 ∷ []) two_in_ten ≡ 2
unfolding lookup
window_quota_example =
    window_quota 100 (101 ∷ 102 ∷ []) host two_in_ten refl (omega arith)
      (omega arith, (omega arith, tt))

abbrev full : FixedWindow
full = record { started_at = 0; request_count = 2 }

abbrev full_limiter : FixedWindowRateLimiter
full_limiter = record two_in_ten { windows = (host, full) ∷ [] }

refused : (RateLimiting.check 4500000000 host full_limiter).0 ≡ some 6
unfolding RateLimiting.check RateLimiting.check_window lookup
refused = refl

found_full : lookup host full_limiter.windows ≡ some full
unfolding lookup
found_full = refl

host-ne-other_host : host ≢ other_host
host-ne-other_host h = ground arith

abbrev remote_two : RedisFixedWindowRateLimiter
remote_two = record {
  request_limit = 2;
  window_seconds = 10;
  key_prefix = codes "rate_limit:login";
}

limiter_quota_example : RemoteQuota.passed quiet quiet_counter_laws remote_two host 3 empty ≡ 2
unfolding client_redis_key lookup
limiter_quota_example =
    limiter_quota quiet quiet_counter_laws remote_two host 3 empty
      (record { delivers = λ s. refl; keeps = λ s k. refl })

-- Redis is out of reach.
abbrev cut_off : Limiters Memory
cut_off = record {
  redis_state = record empty { faults = request_lost ∷ [] };
  fallback = full_limiter;
}

abbrev login : Result (Unit {0}) × Limiters Memory
login = enforce_login_rate_limit (server fault_of tick) remote_two 4500000000 (some host) cut_off

enforcement_example :
    let remote =
      RedisRateLimiting.check (server fault_of tick) remote_two host cut_off.redis_state in
    IsDecision login.0
    × (fault_of cut_off.redis_state ≡ delivered
        → (login.0 ≡ settle remote.0) × (login.1.fallback ≡ full_limiter))
    × (fault_of cut_off.redis_state ≢ delivered
        → (login.0 ≡ refuse_if (RateLimiting.check 4500000000 host full_limiter).0)
          × (login.1.fallback ≡ (RateLimiting.check 4500000000 host full_limiter).1))
enforcement_example = enforcement (server fault_of tick) remote_two 4500000000 (some host) cut_off
