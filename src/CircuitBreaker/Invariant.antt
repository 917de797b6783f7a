-- ===== src/CircuitBreaker/Invariant.antt =====
-- circuit_breaker.py: what every breaker that `create` returns keeps, whatever is called on it.
use fastapi_task_api.Base.{
  String, ◌⊎◌, err, circuit_breaker_open_error, ℕ, ◌≤◌, ◌<◌, ◌≡◌, Option, none, some, ok, arith,
}
use fastapi_task_api.Base.Int.{ℤ}
use fastapi_task_api.CircuitBreaker.{
  CircuitBreaker, CircuitState, closed, opened, half_open, create, before_call, record_success,
  record_failure,
}

-- What the state says about the failure count and the opening time.
abbrev pub Agrees : CircuitState → ℕ → ℕ → Option ℕ → Type 0
Agrees closed threshold count none = count < threshold
Agrees closed threshold count (some t) = ⊥
Agrees opened threshold count none = ⊥
Agrees opened threshold count (some t) = threshold ≤ count
Agrees half_open threshold count none = ⊥
Agrees half_open threshold count (some t) = threshold ≤ count

pub record IsValid (b : CircuitBreaker) : Type 0 where
  pub threshold_pos : 1 ≤ b.failure_threshold
  pub recovery_pos : 1 ≤ b.recovery_timeout
  pub agrees : Agrees b.state b.failure_threshold b.failure_count b.opened_at

pub create-IsValid : (n t : ℤ) {b : CircuitBreaker} → create n t ≡ ok b → IsValid b
unfolding create
create-IsValid n t h = ground arith

module _ {b : CircuitBreaker} (now : ℕ) (v : IsValid b) where
  pub before_call-IsValid : IsValid (before_call now b).1
  unfolding before_call
  before_call-IsValid = ground arith

  pub record_failure-IsValid : IsValid (record_failure now b)
  unfolding record_failure
  record_failure-IsValid = ground arith

pub record_success-IsValid : {b : CircuitBreaker} → IsValid b → IsValid (record_success b)
unfolding record_success
record_success-IsValid v = ground arith

-- A call of `before_call` is admitted, or refused with the breaker left as it is.
pub before_call-cases :
    {b : CircuitBreaker} (now : ℕ)
    → IsValid b
    → ((before_call now b).0 ≡ ok tt)
      ⊎ ((m : String) × ((before_call now b).0 ≡ err (circuit_breaker_open_error m))
          × ((before_call now b).1 ≡ b))
unfolding before_call
before_call-cases {b} now v = ground arith
