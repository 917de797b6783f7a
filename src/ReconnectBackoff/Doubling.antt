-- ===== src/ReconnectBackoff/Doubling.antt =====
-- reconnect_backoff.py: the delays double up to the maximum.
use fastapi_task_api.Base.{ap, dec_lt, ℕ, zero, suc, ◌*◌, ◌≤◌, ◌≡◌, refl, ◌∙◌, min, ok, arith}
use fastapi_task_api.Base.Int.{pos}
use fastapi_task_api.ReconnectBackoff.{ReconnectBackoff, create, next_delay, reset}

-- The delay after `n` others.
pub nth_delay : ℕ → ReconnectBackoff → ℕ
nth_delay zero b = (next_delay b).0
nth_delay (suc n) b = nth_delay n (next_delay b).1

-- The backoff after `n` delays.
pub delayed : ℕ → ReconnectBackoff → ReconnectBackoff
delayed zero b = b
delayed (suc n) b = delayed n (next_delay b).1

-- `2 ^ n`
abbrev pub power : ℕ → ℕ
power zero = 1
power (suc n) = 2 * power n

power_pos : (n : ℕ) → 1 ≤ power n
power_pos zero = omega arith
power_pos (suc n) = omega (arith, power_pos n)

capped_product :
    (p c d m : ℕ) → c ≡ min (d * 2) m → 1 ≤ p → d ≤ m → min (p * c) m ≡ min (2 * p * d) m
capped_product zero c d m e pos_p h = absurd (omega arith)
capped_product (suc q) c d m e pos_p h = elim (dec_lt m (d * 2)) [
  | yes above ↦ let ec : c ≡ m = omega arith in rw ec (omega arith)
  | no below ↦ let ec : c ≡ d * 2 = omega arith in rw ec (ap (λ x. min x m) (omega arith))
]

nth_delay_lem :
    (n : ℕ) (b : ReconnectBackoff)
    → b.upcoming ≤ b.maximum_delay
    → nth_delay n b ≡ min (power n * b.upcoming) b.maximum_delay
unfolding nth_delay next_delay
nth_delay_lem zero b h = omega arith
nth_delay_lem (suc n) b h =
    nth_delay_lem n (next_delay b).1 (omega arith)
    ∙ capped_product (power n) (min (b.upcoming * 2) b.maximum_delay) b.upcoming b.maximum_delay
        refl (power_pos n) h

reset_lem : (n : ℕ) (b : ReconnectBackoff) → reset (delayed n b) ≡ reset b
unfolding delayed next_delay reset
reset_lem zero b = refl
reset_lem (suc n) b = reset_lem n (next_delay b).1

-- Of a backoff that `create` accepts, the delay after `n` others is the initial delay doubled `n`
-- times, or the maximum if that is less, and after any number of delays `reset` starts it anew.
pub delays_double :
    (initial maximum : ℕ) (n : ℕ) {b : ReconnectBackoff}
    → create (pos initial) (pos maximum) ≡ ok b
    → (nth_delay n b ≡ min (power n * initial) maximum) × (reset (delayed n b) ≡ b)
unfolding create reset
delays_double initial maximum n {b} h = ground (arith, nth_delay_lem n b, reset_lem n b)
