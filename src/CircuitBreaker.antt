-- ===== src/CircuitBreaker.antt =====
-- circuit_breaker.py: class CircuitBreaker. A method that reads the clock takes the reading `now`
-- as an argument, in clock ticks; `monotonic()` is not negative. The breaker's exceptions come back
-- beside its state.
pub mod Invariant
pub mod Traces
use fastapi_task_api.Base.{
  ℕ, ◌+◌, ◌-◌, Option, none, some, Result, ok, err, Exec, pure, raise, runtime_error, value_error,
  circuit_breaker_open_error, ltb, leb, if◌then◌else◌,
}
use fastapi_task_api.Base.Int.{ℤ, pos, pos_part, ltb_ℤ, leb_ℤ}

-- `CircuitState.OPEN` is `opened`.
pub data CircuitState : Type 0 where
  closed opened half_open : CircuitState

pub record CircuitBreaker : Type 0 where
  pub failure_threshold : ℕ
  pub recovery_timeout : ℕ
  pub failure_count : ℕ
  pub opened_at : Option ℕ
  pub state : CircuitState

-- `__init__`: past its guards both arguments are positive.
unfoldable pub create : ℤ → ℤ → Result CircuitBreaker
create failure_threshold recovery_timeout =
    if ltb_ℤ failure_threshold (pos 1)
    then err (value_error "failure_threshold must be at least 1")
    else if leb_ℤ recovery_timeout (pos 0)
    then err (value_error "recovery_timeout must be greater than 0")
    else ok (record {
      failure_threshold = pos_part failure_threshold;
      recovery_timeout = pos_part recovery_timeout;
      failure_count = 0;
      opened_at = none;
      state = closed;
    })

-- `_open`
trip : ℕ → CircuitBreaker → CircuitBreaker
trip now b = record b { state = opened; opened_at = some now }

-- The part of `before_call` for an open breaker. A reading before `opened_at` makes the elapsed time
-- negative in the source and 0 here: both are below the positive recovery timeout.
before_call_open : ℕ → Option ℕ → Exec CircuitBreaker (Unit {0})
before_call_open now none b = (err (runtime_error "Open circuit breaker has no opening time"), b)
before_call_open now (some opened_at) b =
    if ltb (now - opened_at) b.recovery_timeout
    then (err (circuit_breaker_open_error "Circuit breaker is open"), b)
    else (ok tt, record b { state = half_open })

before_call_in : CircuitState → ℕ → Exec CircuitBreaker (Unit {0})
unfolding before_call_open
before_call_in closed now b = (ok tt, b)
before_call_in half_open now b =
    (err (circuit_breaker_open_error "Circuit breaker probe is already in progress"), b)
before_call_in opened now b = before_call_open now b.opened_at b

unfoldable pub before_call : ℕ → Exec CircuitBreaker (Unit {0})
unfolding before_call_in
before_call now b = before_call_in b.state now b

unfoldable pub record_success : CircuitBreaker → CircuitBreaker
record_success b = record b { failure_count = 0; opened_at = none; state = closed }

count_failure : ℕ → CircuitBreaker → CircuitBreaker
unfolding trip
count_failure now b =
    let counted = record b { failure_count = b.failure_count + 1 } in
    if leb b.failure_threshold (b.failure_count + 1) then trip now counted else counted

record_failure_in : CircuitState → ℕ → CircuitBreaker → CircuitBreaker
unfolding trip count_failure
record_failure_in half_open now b = trip now b
record_failure_in closed now b = count_failure now b
record_failure_in opened now b = count_failure now b

unfoldable pub record_failure : ℕ → CircuitBreaker → CircuitBreaker
unfolding record_failure_in
record_failure now b = record_failure_in b.state now b
