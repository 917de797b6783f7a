-- ===== src/Retrying.antt =====
-- retrying.py: `retry_http_operation`. Times are in clock ticks. What the awaited operation does is
-- a parameter: how long its call number `i` (from 0) takes, and what it returns or raises. So is the
-- delay that `jitter_function` draws before attempt `i + 1`, given the longest delay.
-- `asyncio.timeout` cancels the body at the first await that would end after the deadline; an await
-- that ends at the deadline completes.
pub mod Bounds
pub mod Outcome
use fastapi_task_api.Base.{
  ℕ, zero, suc, ◌+◌, ◌-◌, ◌*◌, ◌^◌, min, Bool, true, false, ◌||◌, not, Option, none, some, List, [],
  ◌∷◌, Result, ok, err, Error, value_error, runtime_error, retry_budget_exceeded_error, http_error,
  HttpError, timeout_exception, connect_error, http_status_error, other_http_error, ltb, ◌==◌,
  if◌then◌else◌,
}
use fastapi_task_api.Base.Int.{ℤ, pos, pos_part, ltb_ℤ, leb_ℤ}

-- `status_code in RETRYABLE_STATUS_CODES`
in_retryable_status_codes : ℕ → Bool
in_retryable_status_codes status_code =
    status_code == 502 || (status_code == 503 || status_code == 504)

-- `_is_retryable_http_error`
unfoldable pub is_retryable_http_error : HttpError → Bool
unfolding in_retryable_status_codes
is_retryable_http_error timeout_exception = true
is_retryable_http_error connect_error = true
is_retryable_http_error (http_status_error status_code) = in_retryable_status_codes status_code
is_retryable_http_error other_http_error = false

-- What passes `except httpx.HTTPError` and its first test; any other exception leaves the loop.
unfoldable pub is_retried : Error → Bool
unfolding is_retryable_http_error
is_retried (http_error e) = is_retryable_http_error e
is_retried _ = false

-- One call of the operation.
pub record Attempt (A : Type 0) : Type 0 where
  pub duration : ℕ
  pub outcome : Result A

-- A call of `retry_http_operation`: its result, the number of calls of the operation, the delays
-- handed to `sleep_function`, and the time it took.
pub record Run (A : Type 0) : Type 0 where
  pub outcome : Result A
  pub attempts : ℕ
  pub delays : List ℕ
  pub elapsed : ℕ

-- The arguments, past the guards.
pub record Policy : Type 0 where
  pub max_attempts : ℕ
  pub base_delay : ℕ
  pub max_delay : ℕ
  pub total_timeout : Option ℕ

unfoldable pub capped_delay : Policy → ℕ → ℕ
capped_delay p attempt_index = min (p.base_delay * 2 ^ attempt_index) p.max_delay

-- The deadline comes before the time `t` since the start.
abbrev pub is_past : Option ℕ → ℕ → Bool
is_past none t = false
is_past (some deadline) t = ltb deadline t

-- The time at which a cancelled run ends.
abbrev pub deadline_or : Option ℕ → ℕ → ℕ
deadline_or none t = t
deadline_or (some deadline) t = deadline

module _ {A : Type 0} where
  unfoldable pub stop : Result A → ℕ → Run A
  stop r t = record { outcome = r; attempts = 0; delays = []; elapsed = t }

  -- `except TimeoutError` with an expired timeout context
  pub expire : Option ℕ → ℕ → Run A
  unfolding stop
  expire timeout t = stop (err retry_budget_exceeded_error) (deadline_or timeout t)

  pub attempted : Run A → Run A
  attempted r = record r { attempts = suc r.attempts }

  pub slept : ℕ → Run A → Run A
  slept delay r = record r { delays = delay ∷ r.delays }

  -- The body of the loop once the operation has returned or raised at time `finish`. `rest` is the
  -- run from the end of the sleep on.
  pub after_attempt : Policy → ℕ → ℕ → ℕ → Result A → Run A → Run A
  unfolding stop expire slept is_retried
  after_attempt p attempt_index finish delay (ok value) rest = stop (ok value) finish
  after_attempt p attempt_index finish delay (err e) rest =
      if not (is_retried e)
      then stop (err e) finish
      else if attempt_index == p.max_attempts - 1
      then stop (err e) finish
      else slept delay (
          if is_past p.total_timeout (finish + delay)
          then expire p.total_timeout (finish + delay)
          else rest)

module _ {A : Type 0} (operation : ℕ → Attempt A) (jitter_function : ℕ → ℕ → ℕ) (p : Policy) where
  -- `for attempt_index in range(max_attempts)` with `left` rounds to go, `elapsed` after the start.
  unfoldable pub retry_loop : (left attempt_index elapsed : ℕ) → Run A
  unfolding stop expire attempted after_attempt
  retry_loop zero attempt_index elapsed =
      stop (err (runtime_error "Retry loop ended unexpectedly")) elapsed
  retry_loop (suc left) attempt_index elapsed =
      let finish = elapsed + (operation attempt_index).duration in
      let delay = jitter_function attempt_index (capped_delay p attempt_index) in
      let rest = retry_loop left (suc attempt_index) (finish + delay) in
      attempted (
        if is_past p.total_timeout finish
        then expire p.total_timeout finish
        else after_attempt p attempt_index finish delay (operation attempt_index).outcome rest)

-- `total_timeout is not None and total_timeout <= 0`
abbrev pub is_not_positive : Option ℤ → Bool
is_not_positive none = false
is_not_positive (some t) = leb_ℤ t (pos 0)

abbrev pub natural : Option ℤ → Option ℕ
natural none = none
natural (some t) = some (pos_part t)

-- The arguments past the guards are not negative.
abbrev pub policy : ℤ → ℤ → ℤ → Option ℤ → Policy
policy max_attempts base_delay max_delay total_timeout = record {
  max_attempts = pos_part max_attempts;
  base_delay = pos_part base_delay;
  max_delay = pos_part max_delay;
  total_timeout = natural total_timeout;
}

module _ {A : Type 0} (operation : ℕ → Attempt A) (jitter_function : ℕ → ℕ → ℕ) where
  unfoldable pub retry_http_operation : ℤ → ℤ → ℤ → Option ℤ → Run A
  unfolding stop
  retry_http_operation max_attempts base_delay max_delay total_timeout =
      if ltb_ℤ max_attempts (pos 1)
      then stop (err (value_error "max_attempts must be at least 1")) 0
      else if ltb_ℤ base_delay (pos 0)
      then stop (err (value_error "base_delay cannot be negative")) 0
      else if ltb_ℤ max_delay (pos 0)
      then stop (err (value_error "max_delay cannot be negative")) 0
      else if is_not_positive total_timeout
      then stop (err (value_error "total_timeout must be greater than 0")) 0
      else retry_loop operation jitter_function
          (policy max_attempts base_delay max_delay total_timeout) (pos_part max_attempts) 0 0
