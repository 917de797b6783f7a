-- ===== src/CircuitBreaker/Traces.antt =====
-- circuit_breaker.py: concurrent requests share one breaker, so its methods are called in any
-- order, each with the clock reading of its own call.
use fastapi_task_api.Base.{
  ℕ, ◌+◌, ◌≤◌, ◌<◌, ◌≡◌, ◌≢◌, refl, some, ok, err, runtime_error, arith, List, [], ◌∷◌, String, inl,
  inr, Bool-cases, leb, if◌then◌else◌, length, All, circuit_breaker_open_error,
}
use fastapi_task_api.Base.Int.{ℤ}
use fastapi_task_api.CircuitBreaker.{
  CircuitBreaker, closed, opened, half_open, create, before_call, record_success, record_failure,
}
use fastapi_task_api.CircuitBreaker.Invariant.{
  IsValid, create-IsValid, before_call-IsValid, record_failure-IsValid, record_success-IsValid,
}

pub data Call : Type 0 where
  before_call_at record_failure_at : ℕ → Call
  record_success_now : Call

pub perform : Call → CircuitBreaker → CircuitBreaker
perform (before_call_at now) b = (before_call now b).1
perform (record_failure_at now) b = record_failure now b
perform record_success_now b = record_success b

pub run : List Call → CircuitBreaker → CircuitBreaker
run [] b = b
run (c ∷ calls) b = run calls (perform c b)

perform-IsValid : (c : Call) {b : CircuitBreaker} → IsValid b → IsValid (perform c b)
unfolding perform
perform-IsValid (before_call_at now) v = before_call-IsValid now v
perform-IsValid (record_failure_at now) v = record_failure-IsValid now v
perform-IsValid record_success_now v = record_success-IsValid v

run_keeps : (calls : List Call) {b : CircuitBreaker} → IsValid b → IsValid (run calls b)
unfolding run
run_keeps [] v = v
run_keeps (c ∷ calls) v = run_keeps calls (perform-IsValid c v)

before_call_no_fault :
    (now : ℕ) {b : CircuitBreaker} (m : String)
    → IsValid b
    → (before_call now b).0 ≢ err (runtime_error m)
unfolding before_call
before_call_no_fault now m v = ground arith

-- Whatever calls follow the construction of a breaker, in any order and at any clock readings, the
-- breaker is valid, and `before_call` does not find an open breaker without an opening time.
pub run-IsValid :
    (n t : ℤ) (calls : List Call) (now : ℕ) {b : CircuitBreaker}
    → create n t ≡ ok b
    → IsValid (run calls b)
      × ((before_call now (run calls b)).0
          ≢ err (runtime_error "Open circuit breaker has no opening time"))
run-IsValid n t calls now h =
    let v = run_keeps calls (create-IsValid n t h) in (v, before_call_no_fault now _ v)

-- Failures at the clock readings of a list, one after another.
pub fail_at : List ℕ → CircuitBreaker → CircuitBreaker
fail_at [] b = b
fail_at (now ∷ times) b = fail_at times (record_failure now b)

fail_opened :
    (times : List ℕ) (b : CircuitBreaker)
    → b.state ≡ opened
    → b.failure_threshold ≤ b.failure_count
    → (fail_at times b).state ≡ opened
unfolding fail_at record_failure
fail_opened [] b h k = h
fail_opened (now ∷ times) b h k =
    fail_opened times (record_failure now b) (ground arith) (ground arith)

-- A valid closed breaker that records failures, and no success between them, is open exactly when
-- the failures counted so far have reached the threshold, and closed before.
pub opens_at_threshold :
    (times : List ℕ) (b : CircuitBreaker)
    → IsValid b
    → b.state ≡ closed
    → (fail_at times b).state
      ≡ (if leb b.failure_threshold (b.failure_count + length times) then opened else closed)
unfolding fail_at record_failure
opens_at_threshold [] b v h = ground arith
opens_at_threshold (now ∷ times) b v h =
    elim (Bool-cases (leb b.failure_threshold (b.failure_count + 1))) [
      | inl reached ↦ ground (arith, fail_opened times (record_failure now b))
      | inr short ↦
          ground
            (arith, record_failure-IsValid now v, opens_at_threshold times (record_failure now b))
    ]

-- The number of `before_call`s that do not raise, at the clock readings of a list.
pub admitted : List ℕ → CircuitBreaker → ℕ
admitted [] b = 0
admitted (now ∷ times) b =
    let (r, b') = before_call now b in (elim r [ ok _ ↦ 1 | err _ ↦ 0 ]) + admitted times b'

admitted_half_open :
    (times : List ℕ) (b : CircuitBreaker) → b.state ≡ half_open → admitted times b ≡ 0
unfolding admitted before_call
admitted_half_open [] b h = refl
admitted_half_open (now ∷ times) b h = ground (arith, admitted_half_open times b h)

one_probe : (times : List ℕ) (b : CircuitBreaker) → b.state ≢ closed → admitted times b ≤ 1
unfolding admitted before_call
one_probe [] b h = omega arith
one_probe (now ∷ times) b h =
    ground (arith, one_probe times b h, admitted_half_open times (before_call now b).1)

open_refuses :
    (times : List ℕ) (b : CircuitBreaker) (t : ℕ)
    → b.state ≡ opened
    → b.opened_at ≡ some t
    → All (λ now. now < t + b.recovery_timeout) times
    → 0 < b.recovery_timeout
    → (admitted times b ≡ 0) × All (λ now. (before_call now b).1 ≡ b) times
unfolding admitted before_call
open_refuses [] b t h e w p = (refl, tt)
open_refuses (now ∷ times) b t h e w p = ground (arith, open_refuses times b t h e w.1 p)

-- Until a success or a failure is recorded, a breaker that is not closed admits at most one call: the
-- probe is never sent twice. If it was opened at `t`, it admits no call at readings less than the
-- recovery timeout later, and such calls leave it as it is.
pub recovery_guarded :
    (times : List ℕ) (b : CircuitBreaker) (t : ℕ)
    → b.state ≢ closed
    → (admitted times b ≤ 1)
      × (b.state ≡ opened
          → b.opened_at ≡ some t
          → All (λ now. now < t + b.recovery_timeout) times
          → 0 < b.recovery_timeout
          → (admitted times b ≡ 0) × All (λ now. (before_call now b).1 ≡ b) times)
recovery_guarded times b t h = (one_probe times b h, λ o e w p. open_refuses times b t o e w p)

-- The recovery of a breaker opened at `t`: from the recovery timeout on a call is admitted as the
-- probe. Its success closes the breaker with no failure counted, and calls are admitted again; its
-- failure at `later` opens the breaker anew, and calls are refused for another recovery timeout.
pub probe_decides :
    (b : CircuitBreaker) (t now later next : ℕ)
    → IsValid b
    → b.state ≡ opened
    → b.opened_at ≡ some t
    → t + b.recovery_timeout ≤ now
    → ((before_call now b).0 ≡ ok tt)
      × ((record_success (before_call now b).1).failure_count ≡ 0)
      × ((before_call next (record_success (before_call now b).1)).0 ≡ ok tt)
      × (next < later + b.recovery_timeout
          → (before_call next (record_failure later (before_call now b).1)).0
            ≡ err (circuit_breaker_open_error "Circuit breaker is open"))
unfolding before_call record_success record_failure
probe_decides b t now later next v h e late =
    (ground arith, ground arith, ground arith, λ early. ground arith)
