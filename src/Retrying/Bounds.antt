-- ===== src/Retrying/Bounds.antt =====
-- retrying.py: how often, how long and with which delays `retry_http_operation` tries.
use fastapi_task_api.Base.{
  ℕ, zero, suc, ◌+◌, ◌*◌, ◌^◌, ◌≤◌, ◌<◌, ◌≡◌, refl, min, true, false, Option, none, some, List, [],
  ◌∷◌, Result, err, value_error, ◌⊎◌, arith, length,
}
use fastapi_task_api.Base.Int.{ℤ, pos, pos_part, ◌≤ℤ◌, ◌<ℤ◌}
use fastapi_task_api.Retrying.{
  Attempt, is_not_positive, Policy, policy, natural, capped_delay, retry_loop, retry_http_operation,
}

-- The delay after attempt `i`, the next after attempt `i + 1`, and so on, keep below the doubling
-- delay and below the longest delay.
abbrev pub Fits : Policy → ℕ → List ℕ → Type 0
Fits p i [] = Unit
Fits p i (d ∷ ds) = (d ≤ p.base_delay * 2 ^ i) × (d ≤ p.max_delay) × Fits p (suc i) ds

abbrev pub EndsBy : Option ℕ → ℕ → Type 0
EndsBy none t = Unit
EndsBy (some deadline) t = t ≤ deadline

module _ {A : Type 0} (operation : ℕ → Attempt A) (jitter_function : ℕ → ℕ → ℕ) (p : Policy) where
  pub attempts_bounds :
      (left i t : ℕ)
      → let r = retry_loop operation jitter_function p left i t in
        (r.attempts ≤ left) × (min left 1 ≤ r.attempts) × (length r.delays ≤ r.attempts)
  unfolding retry_loop
  attempts_bounds zero i t = omega arith
  attempts_bounds (suc left) i t = ground (
    arith,
    attempts_bounds left (suc i)
        (t + (operation i).duration + jitter_function i (capped_delay p i)),
  )

  pub delays_fewer :
      (left i t : ℕ)
      → i + suc left ≡ p.max_attempts
      → length (retry_loop operation jitter_function p (suc left) i t).delays ≤ left
  unfolding retry_loop
  delays_fewer zero i t h = ground arith
  delays_fewer (suc left) i t h = ground (
    arith,
    delays_fewer left (suc i) (t + (operation i).duration + jitter_function i (capped_delay p i)),
  )

  pub delays_fit :
      ((i m : ℕ) → jitter_function i m ≤ m)
      → (left i t : ℕ) → Fits p i (retry_loop operation jitter_function p left i t).delays
  unfolding retry_loop capped_delay
  delays_fit jitter_le zero i t = tt
  delays_fit jitter_le (suc left) i t = ground (
    arith,
    jitter_le i (capped_delay p i),
    delays_fit jitter_le left (suc i)
        (t + (operation i).duration + jitter_function i (capped_delay p i)),
  )

  pub elapsed_within :
      (left i t : ℕ)
      → EndsBy p.total_timeout t
      → EndsBy p.total_timeout (retry_loop operation jitter_function p left i t).elapsed
  unfolding retry_loop
  elapsed_within zero i t h = h
  elapsed_within (suc left) i t h = ground (
    arith,
    elapsed_within left (suc i) (t + (operation i).duration + jitter_function i (capped_delay p i)),
  )

abbrev pub IsValueError : {A : Type 0} → Result A → Type 0
IsValueError (err (value_error message)) = Unit
IsValueError _ = ⊥

-- The arguments that pass the guards.
pub record IsAccepted (max_attempts base_delay max_delay : ℤ) (total_timeout : Option ℤ)
    : Type 0 where
  pub attempts_pos : pos 1 ≤ℤ max_attempts
  pub base_nonneg : pos 0 ≤ℤ base_delay
  pub max_nonneg : pos 0 ≤ℤ max_delay
  pub timeout_pos : is_not_positive total_timeout ≡ false

module _ {A : Type 0} (operation : ℕ → Attempt A) (jitter_function : ℕ → ℕ → ℕ)
    (max_attempts base_delay max_delay : ℤ) (total_timeout : Option ℤ) where
  pub retry_accepted :
      IsAccepted max_attempts base_delay max_delay total_timeout
      → retry_http_operation operation jitter_function max_attempts base_delay max_delay
          total_timeout
        ≡ retry_loop operation jitter_function
            (policy max_attempts base_delay max_delay total_timeout)
            (pos_part max_attempts)
            0
            0
  unfolding retry_http_operation
  retry_accepted h = ground arith

  -- An argument out of range is refused with `ValueError`, before the operation is called.
  pub retry_rejects :
      (max_attempts <ℤ pos 1)
        ⊎ ((base_delay <ℤ pos 0) ⊎ ((max_delay <ℤ pos 0) ⊎ (is_not_positive total_timeout ≡ true)))
      → let r =
          retry_http_operation operation jitter_function max_attempts base_delay max_delay
            total_timeout in
        (r.attempts ≡ 0) × (r.elapsed ≡ 0) × IsValueError r.outcome
  unfolding retry_http_operation
  retry_rejects h = ground arith

EndsBy-start : (total_timeout : Option ℤ) → EndsBy (natural total_timeout) 0
EndsBy-start none = tt
EndsBy-start (some t) = omega arith

loop_delays :
    {A : Type 0} (operation : ℕ → Attempt A) (jitter_function : ℕ → ℕ → ℕ) (p : Policy) (left : ℕ)
    → left ≡ p.max_attempts
    → 1 ≤ left
    → length (retry_loop operation jitter_function p left 0 0).delays < left
loop_delays operation jitter_function p zero e h = absurd (omega arith)
loop_delays operation jitter_function p (suc left) e h =
    omega (arith, delays_fewer operation jitter_function p left 0 0 (omega arith))

-- If the jitter never exceeds the longest delay that it is given, then with arguments in range the
-- operation is called at least once and at most `max_attempts` times, there are fewer delays than
-- `max_attempts`, the delay after attempt `i` (from 0) is at most `base_delay * 2 ** i` and at most
-- `max_delay`, and a given `total_timeout` is kept.
pub retry_bounds :
    {A : Type 0} (operation : ℕ → Attempt A) (jitter_function : ℕ → ℕ → ℕ)
    (max_attempts base_delay max_delay : ℤ) (total_timeout : Option ℤ)
    → ((i m : ℕ) → jitter_function i m ≤ m)
    → IsAccepted max_attempts base_delay max_delay total_timeout
    → let r =
        retry_http_operation operation jitter_function max_attempts base_delay max_delay
          total_timeout in
      (1 ≤ r.attempts)
      × (r.attempts ≤ pos_part max_attempts)
      × (length r.delays < pos_part max_attempts)
      × Fits (policy max_attempts base_delay max_delay total_timeout) 0 r.delays
      × EndsBy (natural total_timeout) r.elapsed
retry_bounds operation jitter_function max_attempts base_delay max_delay total_timeout jitter_le h =
    let p = policy max_attempts base_delay max_delay total_timeout in
    let b = attempts_bounds operation jitter_function p (pos_part max_attempts) 0 0 in
    let positive : 1 ≤ pos_part max_attempts = omega (arith, h.attempts_pos) in
    let d = loop_delays operation jitter_function p (pos_part max_attempts) refl positive in
    rw (retry_accepted operation jitter_function max_attempts base_delay max_delay total_timeout h)
      (
        omega (arith, b.1),
        b.0,
        d,
        delays_fit operation jitter_function p jitter_le (pos_part max_attempts) 0 0,
        elapsed_within operation jitter_function p (pos_part max_attempts) 0 0
            (EndsBy-start total_timeout),
      )
