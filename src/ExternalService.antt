-- ===== src/ExternalService.antt =====
-- external_service.py and routers/external.py. The HTTP client is a parameter: what call number `i`
-- of `http_client.get(url)` takes and returns (a status code) or raises, and for which status codes
-- `raise_for_status` raises. The breaker reads its clock at `now`, and again when the retries end.
pub mod Requests
pub mod Outage
use fastapi_task_api.Base.{
  ℕ, ◌+◌, Bool, true, false, Option, none, some, Result, ok, err, Error, HttpError, http_error,
  timeout_exception, http_status_error, retry_budget_exceeded_error, circuit_breaker_open_error,
  http_exception, [], if◌then◌else◌,
}
use fastapi_task_api.Base.Int.{ℤ}
use fastapi_task_api.CircuitBreaker.{CircuitBreaker, before_call, record_success, record_failure}
use fastapi_task_api.Retrying.{Attempt, Run, stop, retry_http_operation}

-- The keyword arguments of `fetch_external_status` that go to the retries.
pub record RetryArguments : Type 0 where
  pub max_attempts : ℤ
  pub base_delay : ℤ
  pub max_delay : ℤ
  pub total_timeout : ℤ

-- What a call gives back: its run, and the breaker after it.
pub record Fetched : Type 0 where
  pub run : Run ℕ
  pub breaker : CircuitBreaker

-- The exceptions of the `except` clause that counts a failure.
abbrev pub is_counted : Error → Bool
is_counted (http_error e) = true
is_counted retry_budget_exceeded_error = true
is_counted _ = false

-- `response.raise_for_status()`, then `response.status_code`
abbrev pub check_status : (ℕ → Bool) → Result ℕ → Result ℕ
check_status raises_for_status (ok status_code) =
    if raises_for_status status_code
    then err (http_error (http_status_error status_code))
    else ok status_code
check_status raises_for_status (err e) = err e

module _ (get : ℕ → Attempt ℕ) (raises_for_status : ℕ → Bool) (jitter_function : ℕ → ℕ → ℕ) where
  pub request_status : ℕ → Attempt ℕ
  request_status i = record {
    duration = (get i).duration;
    outcome = check_status raises_for_status (get i).outcome;
  }

  unfoldable pub execute_request_with_retry : RetryArguments → Run ℕ
  unfolding request_status
  execute_request_with_retry a =
      retry_http_operation request_status jitter_function a.max_attempts a.base_delay a.max_delay
        (some a.total_timeout)

-- What the breaker records of a run that began at `now`.
unfoldable pub record_run : ℕ → Run ℕ → CircuitBreaker → CircuitBreaker
record_run now run breaker = elim run.outcome [
  | ok status_code ↦ record_success breaker
  | err e ↦ if is_counted e then record_failure (now + run.elapsed) breaker else breaker
]

-- `fetch_external_status` once `before_call` has returned or raised.
guarded : ℕ → Run ℕ → Result (Unit {0}) × CircuitBreaker → Fetched
unfolding stop
guarded now run (err e, breaker) = record { run = stop (err e) 0; breaker = breaker }
guarded now run (ok _, breaker) = record { run = run; breaker = record_run now run breaker }

module _ (get : ℕ → Attempt ℕ) (raises_for_status : ℕ → Bool) (jitter_function : ℕ → ℕ → ℕ) where
  -- `fetch_external_status` with a circuit breaker; without one it is `execute_request_with_retry`.
  unfoldable pub fetch_external_status : RetryArguments → ℕ → CircuitBreaker → Fetched
  unfolding guarded
  fetch_external_status a now breaker =
      guarded now (execute_request_with_retry get raises_for_status jitter_function a)
        (before_call now breaker)

-- The `except` clauses of `check_external_service`, in their order.
unfoldable pub to_http_exception : Error → Error
to_http_exception (http_error timeout_exception) =
    http_exception 504 "Upstream service timed out" []
to_http_exception retry_budget_exceeded_error = http_exception 504 "Upstream service timed out" []
to_http_exception (http_error _) = http_exception 502 "Upstream service unavailable" []
to_http_exception (circuit_breaker_open_error _) =
    http_exception 503 "Upstream service temporarily unavailable" []
to_http_exception e = e

-- The response body: `ExternalServiceResponse(status="available")`.
pub data ExternalServiceResponse : Type 0 where
  available : ExternalServiceResponse

abbrev pub respond : Result ℕ → Result ExternalServiceResponse
respond (ok status_code) = ok available
respond (err e) = err (to_http_exception e)

module _ (get : ℕ → Attempt ℕ) (raises_for_status : ℕ → Bool) (jitter_function : ℕ → ℕ → ℕ) where
  unfoldable pub check_external_service :
      RetryArguments → ℕ → CircuitBreaker → Result ExternalServiceResponse × CircuitBreaker
  unfolding to_http_exception
  check_external_service a now breaker =
      let f = fetch_external_status get raises_for_status jitter_function a now breaker in
      (respond f.run.outcome, f.breaker)
