-- ===== src/Tests/ExternalService.antt =====
-- external_service.py, routers/external.py on concrete requests.
use fastapi_task_api.Base.{
  ℕ, ◌≡◌, refl, Bool, none, some, ok, err, [], ◌∷◌, http_error, timeout_exception, http_exception,
  other_error, leb, arith,
}
use fastapi_task_api.Base.Int.{pos}
use fastapi_task_api.CircuitBreaker.{CircuitBreaker, closed, opened}
use fastapi_task_api.CircuitBreaker.Invariant.{IsValid}
use fastapi_task_api.Retrying.{Attempt, retry_http_operation, retry_loop, is_retried}
use fastapi_task_api.ExternalService.{RetryArguments, execute_request_with_retry}
use fastapi_task_api.ExternalService.Requests.{AreAccepted}
use fastapi_task_api.ExternalService.Outage.{Request, answer, serve, outage_opens, probe_lost}

abbrev is_error : ℕ → Bool
is_error status_code = leb 400 status_code

abbrev full_delay : ℕ → ℕ → ℕ
full_delay i m = m

abbrev arguments : RetryArguments
arguments = record {
  max_attempts = pos 2;
  base_delay = pos 1;
  max_delay = pos 4;
  total_timeout = pos 100;
}

accepted : AreAccepted arguments
accepted = record {
  attempts_pos = omega arith;
  base_nonneg = omega arith;
  max_nonneg = omega arith;
  timeout_pos = refl;
}

abbrev fresh : CircuitBreaker
fresh = record {
  failure_threshold = 2;
  recovery_timeout = 10;
  failure_count = 0;
  opened_at = none;
  state = closed;
}

abbrev tripped : CircuitBreaker
tripped = record fresh { failure_count = 2; opened_at = some 5; state = opened }

fresh-IsValid : IsValid fresh
fresh-IsValid = record {
  threshold_pos = omega arith;
  recovery_pos = omega arith;
  agrees = omega arith;
}

tripped-IsValid : IsValid tripped
tripped-IsValid = record {
  threshold_pos = omega arith;
  recovery_pos = omega arith;
  agrees = omega arith;
}

-- The upstream never answers in time.
abbrev silent : ℕ → Attempt ℕ
silent i = record { duration = 3; outcome = err (http_error timeout_exception) }

-- The call is cancelled.
abbrev cancelled : ℕ → Attempt ℕ
cancelled i = record { duration = 3; outcome = err other_error }

abbrev ask : ℕ → Request
ask now = record { get = silent; jitter_function = full_delay; now = now }

-- Or it answers with an error.
abbrev unavailable : ℕ → Request
unavailable now = record {
  get = λ i. record { duration = 1; outcome = ok 503 };
  jitter_function = full_delay;
  now = now;
}

outage_opens_example :
    (serve is_error arguments (ask 1 ∷ unavailable 9 ∷ ask 17 ∷ []) fresh).state ≡ opened
outage_opens_example =
    outage_opens is_error arguments accepted (ask 1 ∷ unavailable 9 ∷ ask 17 ∷ []) fresh
      ((λ i. tt), ((λ i. tt), ((λ i. tt), tt))) fresh-IsValid refl

abbrev probe : Request
probe = record { get = cancelled; jitter_function = full_delay; now = 20 }

probe_raises :
    (execute_request_with_retry cancelled is_error full_delay arguments).outcome ≡ err other_error
unfolding execute_request_with_retry retry_http_operation retry_loop is_retried
probe_raises = refl

probe_lost_example :
    (answer is_error arguments (ask 900) (
      serve is_error arguments
        (ask 40 ∷ ask 60 ∷ [])
        (answer is_error arguments probe tripped).1)).0
    ≡ err (http_exception 503 "Upstream service temporarily unavailable" [])
probe_lost_example =
    probe_lost is_error arguments accepted probe (ask 900) tripped 5 other_error
      (ask 40 ∷ ask 60 ∷ []) refl refl (omega arith) probe_raises refl
