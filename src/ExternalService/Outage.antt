-- ===== src/ExternalService/Outage.antt =====
-- external_service.py, routers/external.py: several requests, one after another, that share the
-- breaker.
use fastapi_task_api.Base.{
  ℕ, ◌+◌, ◌≤◌, ◌≡◌, inl, inr, refl, Bool, true, false, some, Result, ok, err, Error, http_error,
  http_exception, if◌then◌else◌, arith, List, [], ◌∷◌, length, All, leb, Bool-cases,
}
use fastapi_task_api.CircuitBreaker.{
  CircuitBreaker, closed, opened, half_open, before_call, record_failure,
}
use fastapi_task_api.CircuitBreaker.Invariant.{IsValid}
use fastapi_task_api.Retrying.{Attempt}
use fastapi_task_api.ExternalService.{
  RetryArguments, check_status, is_counted, execute_request_with_retry, record_run,
  fetch_external_status, check_external_service, ExternalServiceResponse,
}
use fastapi_task_api.ExternalService.Requests.{AreAccepted, run_source, request_guarded}

-- A request: the behaviour of the upstream and the random delays during it, and its start.
pub record Request : Type 0 where
  pub get : ℕ → Attempt ℕ
  pub jitter_function : ℕ → ℕ → ℕ
  pub now : ℕ

module _ (raises_for_status : ℕ → Bool) (a : RetryArguments) where
  pub answer : Request → CircuitBreaker → Result ExternalServiceResponse × CircuitBreaker
  answer q breaker =
      check_external_service q.get raises_for_status q.jitter_function a q.now breaker

  pub serve : List Request → CircuitBreaker → CircuitBreaker
  serve [] breaker = breaker
  serve (q ∷ requests) breaker = serve requests (answer q breaker).1

-- An attempt ends in an `httpx.HTTPError`.
abbrev pub IsHttpFailure : Result ℕ → Type 0
IsHttpFailure (err (http_error e)) = Unit
IsHttpFailure _ = ⊥

-- Every attempt of the request does: the client raises it, or `raise_for_status` for the status code.
abbrev pub IsDown : (ℕ → Bool) → Request → Type 0
IsDown raises_for_status q =
    (i : ℕ) → IsHttpFailure (check_status raises_for_status (q.get i).outcome)

abbrev pub IsCountedFailure : Result ℕ → Type 0
IsCountedFailure (ok status_code) = ⊥
IsCountedFailure (err e) = is_counted e ≡ true

module _ (raises_for_status : ℕ → Bool) (a : RetryArguments) (accepted : AreAccepted a) where
  down_run :
      (q : Request)
      → IsDown raises_for_status q
      → IsCountedFailure
          (execute_request_with_retry q.get raises_for_status q.jitter_function a).outcome
  down_run q down =
      let (j, source) = run_source q.get raises_for_status q.jitter_function a accepted in
      ground (arith, down j, source)

  down_closed :
      (q : Request) (b : CircuitBreaker)
      → IsDown raises_for_status q
      → b.state ≡ closed
      → let run = execute_request_with_retry q.get raises_for_status q.jitter_function a in
        (answer raises_for_status a q b).1 ≡ record_failure (q.now + run.elapsed) b
  unfolding answer check_external_service fetch_external_status before_call record_run
  down_closed q b down h = ground (arith, down_run q down)

  down_opened :
      (q : Request) (b : CircuitBreaker)
      → IsDown raises_for_status q
      → IsValid b
      → b.state ≡ opened
      → (answer raises_for_status a q b).1.state ≡ opened
  unfolding answer check_external_service fetch_external_status before_call record_run
      record_failure
  down_opened q b down v h = ground (arith, down_run q down)

  answer-IsValid :
      (q : Request) (b : CircuitBreaker) → IsValid b → IsValid (answer raises_for_status a q b).1
  unfolding answer check_external_service
  answer-IsValid q b v = (request_guarded q.get raises_for_status q.jitter_function a q.now v).0

  outage_opened :
      (requests : List Request) (b : CircuitBreaker)
      → All (IsDown raises_for_status) requests
      → IsValid b
      → b.state ≡ opened
      → (serve raises_for_status a requests b).state ≡ opened
  unfolding serve
  outage_opened [] b down v h = h
  outage_opened (q ∷ requests) b down v h =
      outage_opened requests (answer raises_for_status a q b).1 down.1 (answer-IsValid q b v)
        (down_opened q b down.0 v h)

  -- While every attempt of every request ends in an `httpx.HTTPError`, raised by the client or by
  -- `raise_for_status` for the answer's status code, with arguments in range, a valid closed breaker
  -- is open after the requests exactly when their number and the failures counted before reach the
  -- threshold, and closed before, whatever the delays and the clock.
  pub outage_opens :
      (requests : List Request) (b : CircuitBreaker)
      → All (IsDown raises_for_status) requests
      → IsValid b
      → b.state ≡ closed
      → (serve raises_for_status a requests b).state
        ≡ (if leb b.failure_threshold (b.failure_count + length requests) then opened else closed)
  unfolding serve record_failure
  outage_opens [] b down v h = ground arith
  outage_opens (q ∷ requests) b down v h =
      let c = (answer raises_for_status a q b).1 in
      let step = down_closed q b down.0 h in
      elim (Bool-cases (leb b.failure_threshold (b.failure_count + 1))) [
        | inl reached ↦ ground (arith, step, outage_opened requests c down.1 (answer-IsValid q b v))
        | inr short ↦ ground (arith, step, outage_opens requests c down.1 (answer-IsValid q b v))
      ]

  half_open_stays :
      (requests : List Request) (b : CircuitBreaker)
      → b.state ≡ half_open
      → serve raises_for_status a requests b ≡ b
  unfolding serve answer check_external_service fetch_external_status before_call
  half_open_stays [] b h = refl
  half_open_stays (q ∷ requests) b h = ground (arith, half_open_stays requests b h)

  -- If the probe of an open breaker, sent when the recovery timeout has passed, ends in an exception
  -- that is neither an `httpx.HTTPError` nor `RetryBudgetExceededError` (a cancellation, say), then
  -- nothing is recorded, and after any further requests, at any time, the next one is answered 503.
  pub probe_lost :
      (q next : Request) (b : CircuitBreaker) (t : ℕ) (e : Error) (requests : List Request)
      → b.state ≡ opened
      → b.opened_at ≡ some t
      → t + b.recovery_timeout ≤ q.now
      → (execute_request_with_retry q.get raises_for_status q.jitter_function a).outcome ≡ err e
      → is_counted e ≡ false
      → (answer raises_for_status a next
          (serve raises_for_status a requests (answer raises_for_status a q b).1)).0
        ≡ err (http_exception 503 "Upstream service temporarily unavailable" [])
  unfolding answer check_external_service fetch_external_status before_call record_run
  probe_lost q next b t e requests h at late raised uncounted =
      let c = (answer raises_for_status a q b).1 in ground (arith, half_open_stays requests c)
