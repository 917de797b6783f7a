-- ===== src/Tests/CircuitBreaker.antt =====
-- circuit_breaker.py on concrete calls.
use fastapi_task_api.Base.{
  ℕ, Option, ◌≡◌, ◌≢◌, refl, none, some, err, runtime_error, circuit_breaker_open_error, List, [],
  ◌∷◌, arith, ◌<◌, ◌≤◌, ◌+◌, All,
}
use fastapi_task_api.Base.Int.{pos}
use fastapi_task_api.CircuitBreaker.{
  CircuitBreaker, closed, opened, create, before_call, record_failure,
}
use fastapi_task_api.CircuitBreaker.Invariant.{IsValid}
use fastapi_task_api.CircuitBreaker.Traces.{
  Call, before_call_at, record_failure_at, record_success_now, run, run-IsValid, admitted,
  recovery_guarded,
}

-- Two failures open it; the recovery timeout is 10.
abbrev fresh : CircuitBreaker
fresh = record {
  failure_threshold = 2;
  recovery_timeout = 10;
  failure_count = 0;
  opened_at = none;
  state = closed;
}

abbrev tripped : CircuitBreaker
tripped = record fresh { failure_count = 2; opened_at = some 5; state = opened }

-- test_half_open_circuit_reopens_after_failure
reopened :
    (before_call 29
      (record_failure 20 (before_call 15 (record_failure 5 (record_failure 4 fresh))).1)).0
    ≡ err (circuit_breaker_open_error "Circuit breaker is open")
unfolding before_call record_failure
reopened = refl

abbrev calls : List Call
calls =
    record_failure_at 1
    ∷ record_failure_at 5
    ∷ before_call_at 9
    ∷ before_call_at 15
    ∷ record_success_now
    ∷ []

run-IsValid_example :
    IsValid (run calls fresh)
    × ((before_call 20 (run calls fresh)).0
        ≢ err (runtime_error "Open circuit breaker has no opening time"))
unfolding create
run-IsValid_example = run-IsValid (pos 2) (pos 10) calls 20 {b = fresh} refl

recovery_guarded_example :
    (admitted (6 ∷ 14 ∷ []) tripped ≤ 1)
    × (opened ≡ opened
        → ◌≡◌ {A = Option ℕ} (some 5) (some 5)
        → All (λ now. now < 5 + 10) (6 ∷ 14 ∷ [])
        → 0 < 10
        → (admitted (6 ∷ 14 ∷ []) tripped ≡ 0)
          × All (λ now. (before_call now tripped).1 ≡ tripped) (6 ∷ 14 ∷ []))
recovery_guarded_example = recovery_guarded (6 ∷ 14 ∷ []) tripped 5 (ground arith)
