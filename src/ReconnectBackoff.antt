-- ===== src/ReconnectBackoff.antt =====
-- reconnect_backoff.py: class ReconnectBackoff. Delays are counted in clock ticks.
pub mod Doubling
use fastapi_task_api.Base.{ℕ, ◌*◌, min, Result, ok, err, value_error, if◌then◌else◌}
use fastapi_task_api.Base.Int.{ℤ, pos, pos_part, leb_ℤ, ltb_ℤ}

pub record ReconnectBackoff : Type 0 where
  pub initial_delay : ℕ
  pub maximum_delay : ℕ
  -- `_next_delay`
  pub upcoming : ℕ

unfoldable pub create : (initial_delay maximum_delay : ℤ) → Result ReconnectBackoff
create initial_delay maximum_delay =
    if leb_ℤ initial_delay (pos 0)
    then err (value_error "initial_delay must be positive")
    else if ltb_ℤ maximum_delay initial_delay
    then err (value_error "maximum_delay must be at least initial_delay")
    else ok (record {
      initial_delay = pos_part initial_delay;
      maximum_delay = pos_part maximum_delay;
      upcoming = pos_part initial_delay;
    })

unfoldable pub next_delay : ReconnectBackoff → ℕ × ReconnectBackoff
next_delay b = (b.upcoming, record b { upcoming = min (b.upcoming * 2) b.maximum_delay })

unfoldable pub reset : ReconnectBackoff → ReconnectBackoff
reset b = record b { upcoming = b.initial_delay }
