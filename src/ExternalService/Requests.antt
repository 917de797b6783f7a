-- ===== src/ExternalService/Requests.antt =====
-- external_service.py, routers/external.py: one request.
use fastapi_task_api.Base.{
  ℕ, ◌+◌, ◌≡◌, ◌⊎◌, inl, inr, Bool, some, Result, ok, err, Error, http_error,
  retry_budget_exceeded_error, http_exception, [], arith,
}
use fastapi_task_api.CircuitBreaker.{CircuitBreaker, before_call}
use fastapi_task_api.CircuitBreaker.Invariant.{
  IsValid, before_call-IsValid, before_call-cases, record_success-IsValid, record_failure-IsValid,
}
use fastapi_task_api.Retrying.{Attempt, Run}
use fastapi_task_api.Retrying.Bounds.{IsAccepted}
use fastapi_task_api.Retrying.Outcome.{retry_source}
use fastapi_task_api.ExternalService.{
  RetryArguments, check_status, request_status, execute_request_with_retry, record_run,
  fetch_external_status, check_external_service, available, ExternalServiceResponse,
}

pub record_run-IsValid :
    (now : ℕ) (run : Run ℕ) {b : CircuitBreaker} → IsValid b → IsValid (record_run now run b)
unfolding record_run
record_run-IsValid now run v =
    ground (arith, record_success-IsValid v, record_failure-IsValid (now + run.elapsed) v)

module _ (get : ℕ → Attempt ℕ) (raises_for_status : ℕ → Bool) (jitter_function : ℕ → ℕ → ℕ)
    (a : RetryArguments) (now : ℕ) {breaker : CircuitBreaker} where
  -- A request keeps a valid breaker valid. If the breaker refuses the call, no request is sent, no
  -- time passes, the breaker stays as it is and the answer is 503; otherwise the breaker records the
  -- run of the retries.
  pub request_guarded :
      IsValid breaker
      → let f = fetch_external_status get raises_for_status jitter_function a now breaker in
        let run = execute_request_with_retry get raises_for_status jitter_function a in
        let c = check_external_service get raises_for_status jitter_function a now breaker in
        IsValid f.breaker
        × ((((before_call now breaker).0 ≡ ok tt)
              × (f.run ≡ run)
              × (f.breaker ≡ record_run now run (before_call now breaker).1))
            ⊎ ((f.run.attempts ≡ 0)
                × (f.run.elapsed ≡ 0)
                × (f.breaker ≡ breaker)
                × (c.0 ≡ err (http_exception 503 "Upstream service temporarily unavailable" []))))
  unfolding check_external_service fetch_external_status
  request_guarded v =
      let run = execute_request_with_retry get raises_for_status jitter_function a in
      elim (before_call-cases now v) [
        | inl admitted ↦ ground (arith, record_run-IsValid now run (before_call-IsValid now v))
        | inr (m, refused, kept) ↦ ground arith
      ]

-- The status codes with which the service answers for its upstream.
abbrev pub IsUpstreamStatus : ℕ → Type 0
IsUpstreamStatus status = (status ≡ 502) ⊎ ((status ≡ 503) ⊎ (status ≡ 504))

-- The exceptions that a request can end in, given that the client raises only `httpx.HTTPError`s.
abbrev pub IsUpstreamError : Error → Type 0
IsUpstreamError (http_exception status detail headers) = IsUpstreamStatus status
IsUpstreamError _ = ⊥

abbrev pub IsHttpxOutcome : Result ℕ → Type 0
IsHttpxOutcome (ok status_code) = Unit
IsHttpxOutcome (err (http_error e)) = Unit
IsHttpxOutcome (err _) = ⊥

abbrev pub AreAccepted : RetryArguments → Type 0
AreAccepted a = IsAccepted a.max_attempts a.base_delay a.max_delay (some a.total_timeout)

abbrev pub Answers : Result ExternalServiceResponse → Type 0
Answers (ok available) = Unit
Answers (err e) = IsUpstreamError e

module _ (get : ℕ → Attempt ℕ) (raises_for_status : ℕ → Bool) (jitter_function : ℕ → ℕ → ℕ)
    (a : RetryArguments) where
  pub run_source :
      AreAccepted a
      → let run = execute_request_with_retry get raises_for_status jitter_function a in
        (j : ℕ) × ((run.outcome ≡ err retry_budget_exceeded_error)
          ⊎ (run.outcome ≡ check_status raises_for_status (get j).outcome))
  unfolding execute_request_with_retry
  run_source h =
      retry_source (request_status get raises_for_status jitter_function) jitter_function
        a.max_attempts a.base_delay a.max_delay (some a.total_timeout) h

  -- With arguments in range, a valid breaker, and a client that returns a status code or raises an
  -- `httpx.HTTPError`, the endpoint answers, or raises an HTTP exception with status 502, 503 or 504.
  pub check-Answers :
      (now : ℕ) {breaker : CircuitBreaker}
      → AreAccepted a
      → IsValid breaker
      → ((i : ℕ) → IsHttpxOutcome (get i).outcome)
      → Answers (check_external_service get raises_for_status jitter_function a now breaker).0
  unfolding check_external_service fetch_external_status
  check-Answers now h v httpx =
      let (j, source) = run_source h in
      elim (before_call-cases now v) [
        | inl admitted ↦ ground (arith, httpx j)
        | inr (m, refused, kept) ↦ ground arith
      ]
