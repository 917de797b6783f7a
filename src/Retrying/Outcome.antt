-- ===== src/Retrying/Outcome.antt =====
-- retrying.py: what `retry_http_operation` returns or raises.
use fastapi_task_api.Base.{
  ℕ, zero, suc, ◌+◌, ◌-◌, ◌≤◌, ◌<◌, ◌≡◌, ◌≢◌, refl, Bool, true, false, Option, none, Result, ok,
  err, Error, runtime_error, retry_budget_exceeded_error, arith, ◌⊎◌, inl, inr, dec_lt, ◌==◌,
  Bool-cases,
}
use fastapi_task_api.Base.Int.{ℤ, pos_part}
use fastapi_task_api.Retrying.{
  Attempt, Run, Policy, policy, is_retried, capped_delay, retry_loop, retry_http_operation,
}
use fastapi_task_api.Retrying.Bounds.{IsAccepted, retry_accepted}

abbrev pub unexpected : Error
unexpected = runtime_error "Retry loop ended unexpectedly"

-- The outcomes after which the loop goes on.
abbrev pub is_retried_result : {A : Type 0} → Result A → Bool
is_retried_result (ok value) = false
is_retried_result (err e) = is_retried e

module _ {A : Type 0} (operation : ℕ → Attempt A) (jitter_function : ℕ → ℕ → ℕ) (p : Policy) where
  -- The loop of the same arguments without a total timeout is cut short, or left alone.
  pub loop_cut :
      (left i t : ℕ)
      → let r = retry_loop operation jitter_function p left i t in
        let free =
          retry_loop operation jitter_function (record p { total_timeout = none }) left i t in
        (r.outcome ≡ err retry_budget_exceeded_error) ⊎ (r ≡ free)
  unfolding retry_loop capped_delay
  loop_cut zero i t = inr refl
  loop_cut (suc left) i t = ground (
    arith,
    loop_cut left (suc i) (t + (operation i).duration + jitter_function i (capped_delay p i)),
  )

  pub loop_result :
      (left k i t : ℕ)
      → p.total_timeout ≡ none
      → i + left ≡ p.max_attempts
      → i ≤ k
      → k < p.max_attempts
      → ((j : ℕ) → j < k → is_retried_result (operation j).outcome ≡ true)
      → (is_retried_result (operation k).outcome ≡ false) ⊎ (k + 1 ≡ p.max_attempts)
      → let r = retry_loop operation jitter_function p left i t in
        (r.outcome ≡ (operation k).outcome) × (i + r.attempts ≡ k + 1)
  unfolding retry_loop
  loop_result zero k i t free eq le lt before final = absurd (omega arith)
  loop_result (suc left) k i t free eq le lt before final = elim (dec_lt i k) [
    | yes more ↦ ground (
      arith,
      before i,
      loop_result left k (suc i) (t + (operation i).duration + jitter_function i (capped_delay p i))
          free (omega arith) more lt before final,
    )
    | no last ↦ let e : i ≡ k = omega arith in ground arith
  ]

  -- What a loop ends in comes from an attempt, or from the timeout.
  pub loop_source :
      (left i t : ℕ)
      → i + left ≡ p.max_attempts
      → 1 ≤ left
      → let r = retry_loop operation jitter_function p left i t in
        (j : ℕ) × ((r.outcome ≡ err retry_budget_exceeded_error)
          ⊎ (r.outcome ≡ (operation j).outcome))
  unfolding retry_loop
  loop_source zero i t eq h = absurd (omega arith)
  loop_source (suc left) i t eq h = elim (Bool-cases (i == p.max_attempts - 1)) [
    | inl last ↦ (i, ground arith)
    | inr more ↦ elim (Bool-cases (is_retried_result (operation i).outcome)) [
      | inl again ↦
          let t' = t + (operation i).duration + jitter_function i (capped_delay p i) in
          let (j, source) = loop_source left (suc i) t' (omega arith) (ground arith) in
          (j, ground (arith, source))
      | inr final ↦ (i, ground arith)
    ]
  ]

without_timeout :
    {max_attempts base_delay max_delay : ℤ} {total_timeout : Option ℤ}
    → IsAccepted max_attempts base_delay max_delay total_timeout
    → IsAccepted max_attempts base_delay max_delay none
without_timeout h = record {
  attempts_pos = h.attempts_pos;
  base_nonneg = h.base_nonneg;
  max_nonneg = h.max_nonneg;
  timeout_pos = refl;
}

module _ {A : Type 0} (operation : ℕ → Attempt A) (jitter_function : ℕ → ℕ → ℕ)
    (max_attempts base_delay max_delay : ℤ) (total_timeout : Option ℤ) where
  abbrev pub retry : Option ℤ → Run A
  retry = retry_http_operation operation jitter_function max_attempts base_delay max_delay

  -- With arguments in range, no total timeout, and attempt `k` (from 0) below `max_attempts` the
  -- first that is not retried, or the last of all: the operation is called `k + 1` times, and the
  -- call returns or raises what attempt `k` did.
  pub retry_result :
      (k : ℕ)
      → IsAccepted max_attempts base_delay max_delay none
      → k < pos_part max_attempts
      → ((j : ℕ) → j < k → is_retried_result (operation j).outcome ≡ true)
      → (is_retried_result (operation k).outcome ≡ false) ⊎ (k + 1 ≡ pos_part max_attempts)
      → ((retry none).outcome ≡ (operation k).outcome) × ((retry none).attempts ≡ k + 1)
  retry_result k h lt before final =
      let q =
        loop_result operation jitter_function (policy max_attempts base_delay max_delay none)
          (pos_part max_attempts) k 0 0 refl (omega arith) (omega arith) lt before final in
      rw (retry_accepted operation jitter_function max_attempts base_delay max_delay none h)
        (q.0, omega (arith, q.1))

  -- With arguments in range, a total timeout changes nothing but to end a call by
  -- `RetryBudgetExceededError`: any other call runs as it would without the timeout.
  pub retry_cut :
      IsAccepted max_attempts base_delay max_delay total_timeout
      → ((retry total_timeout).outcome ≡ err retry_budget_exceeded_error)
        ⊎ (retry total_timeout ≡ retry none)
  retry_cut h =
      rw
        (
          retry_accepted operation jitter_function max_attempts base_delay max_delay total_timeout
              h,
          retry_accepted operation jitter_function max_attempts base_delay max_delay none
              (without_timeout h),
        )
        (loop_cut operation jitter_function (policy max_attempts base_delay max_delay total_timeout)
          (pos_part max_attempts) 0 0)

  pub retry_source :
      IsAccepted max_attempts base_delay max_delay total_timeout
      → (j : ℕ) × (((retry total_timeout).outcome ≡ err retry_budget_exceeded_error)
          ⊎ ((retry total_timeout).outcome ≡ (operation j).outcome))
  retry_source h =
      rw
        (retry_accepted operation jitter_function max_attempts base_delay max_delay total_timeout h)
        (loop_source operation jitter_function
          (policy max_attempts base_delay max_delay total_timeout) (pos_part max_attempts) 0 0
          (omega arith) (omega (arith, h.attempts_pos)))

  -- The error behind the loop is never raised: with arguments in range, and an operation that does
  -- not raise that very error, the loop ends by a result or an exception of its body.
  pub retry_ends :
      IsAccepted max_attempts base_delay max_delay total_timeout
      → ((j : ℕ) → (operation j).outcome ≢ err unexpected)
      → (retry total_timeout).outcome ≢ err unexpected
  retry_ends h clean = let (j, source) = retry_source h in ground (arith, clean j)
