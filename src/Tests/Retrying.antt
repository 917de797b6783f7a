-- ===== src/Tests/Retrying.antt =====
-- retrying.py on concrete operations.
use fastapi_task_api.Base.{
  ℕ, zero, suc, ◌≤◌, ◌<◌, ◌≡◌, ◌≢◌, ◌⊎◌, inl, refl, true, none, some, ok, err, [], ◌∷◌, length,
  http_error, timeout_exception, http_status_error, retry_budget_exceeded_error, arith,
}
use fastapi_task_api.Base.Int.{pos}
use fastapi_task_api.Retrying.{
  Attempt, policy, is_retried, capped_delay, retry_loop, retry_http_operation,
}
use fastapi_task_api.Retrying.Bounds.{Fits, IsAccepted, retry_bounds}
use fastapi_task_api.Retrying.Outcome.{
  is_retried_result, retry, unexpected, retry_result, retry_cut,
}

-- A timeout, then 503, then 200; each call takes 2 ticks.
abbrev flaky : ℕ → Attempt ℕ
flaky zero = record { duration = 2; outcome = err (http_error timeout_exception) }
flaky (suc zero) = record { duration = 2; outcome = err (http_error (http_status_error 503)) }
flaky (suc (suc n)) = record { duration = 2; outcome = ok 200 }

-- No jitter: the longest delay.
abbrev full_delay : ℕ → ℕ → ℕ
full_delay i m = m

-- Two delays, of 5 and of 10 capped to 8.
third_attempt :
    retry_http_operation flaky full_delay (pos 3) (pos 5) (pos 8) none
    ≡ record { outcome = ok 200; attempts = 3; delays = 5 ∷ 8 ∷ []; elapsed = 19 }
unfolding retry_http_operation retry_loop is_retried capped_delay
third_attempt = refl

-- The budget ends during the second sleep.
out_of_budget :
    retry_http_operation flaky full_delay (pos 3) (pos 5) (pos 8) (some (pos 16)) ≡ record {
      outcome = err retry_budget_exceeded_error;
      attempts = 2;
      delays = 5 ∷ 8 ∷ [];
      elapsed = 16;
    }
unfolding retry_http_operation retry_loop is_retried capped_delay
out_of_budget = refl

accepted : IsAccepted (pos 3) (pos 5) (pos 8) none
accepted = record {
  attempts_pos = omega arith;
  base_nonneg = omega arith;
  max_nonneg = omega arith;
  timeout_pos = refl;
}

IsAccepted-16 : IsAccepted (pos 3) (pos 5) (pos 8) (some (pos 16))
IsAccepted-16 = record {
  attempts_pos = omega arith;
  base_nonneg = omega arith;
  max_nonneg = omega arith;
  timeout_pos = refl;
}

retry_bounds_example :
    let r = retry_http_operation flaky full_delay (pos 3) (pos 5) (pos 8) (some (pos 16)) in
    (1 ≤ r.attempts)
    × (r.attempts ≤ 3)
    × (length r.delays < 3)
    × Fits (policy (pos 3) (pos 5) (pos 8) (some (pos 16))) 0 r.delays
    × (r.elapsed ≤ 16)
retry_bounds_example =
    retry_bounds flaky full_delay (pos 3) (pos 5) (pos 8) (some (pos 16)) (λ i m. omega arith)
      IsAccepted-16

flaky_before : (j : ℕ) → j < 2 → is_retried_result (flaky j).outcome ≡ true
unfolding is_retried
flaky_before zero h = refl
flaky_before (suc zero) h = refl
flaky_before (suc (suc j)) h = absurd (omega arith)

retry_result_example :
    ((retry flaky full_delay (pos 3) (pos 5) (pos 8) none none).outcome ≡ ok 200)
    × ((retry flaky full_delay (pos 3) (pos 5) (pos 8) none none).attempts ≡ 3)
retry_result_example =
    retry_result flaky full_delay (pos 3) (pos 5) (pos 8) none 2 accepted (omega arith) flaky_before
      (inl refl)

retry_cut_example :
    ((retry flaky full_delay (pos 3) (pos 5) (pos 8) (some (pos 16)) (some (pos 16))).outcome
      ≡ err retry_budget_exceeded_error)
    ⊎ (retry flaky full_delay (pos 3) (pos 5) (pos 8) (some (pos 16)) (some (pos 16))
        ≡ retry flaky full_delay (pos 3) (pos 5) (pos 8) (some (pos 16)) none)
retry_cut_example = retry_cut flaky full_delay (pos 3) (pos 5) (pos 8) (some (pos 16)) IsAccepted-16

flaky_clean : (j : ℕ) → (flaky j).outcome ≢ err unexpected
flaky_clean zero h = cc
flaky_clean (suc zero) h = cc
flaky_clean (suc (suc j)) h = cc
