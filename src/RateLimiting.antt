-- ===== src/RateLimiting.antt =====
-- rate_limiting.py: class FixedWindowRateLimiter. `check` takes the clock reading; its lock makes
-- each call one step. Clock readings are in ticks, windows in seconds. The two settings are at least
-- 1 where the program builds the limiter (config.py).
pub mod Quota
use fastapi_task_api.Base.{ℕ, ◌+◌, ◌-◌, ◌*◌, ◌/◌, max, Option, none, some, ltb, leb, if◌then◌else◌}
use fastapi_task_api.Base.Text.{Text}
use fastapi_task_api.Base.Eq.{text_eq}
use fastapi_task_api.Base.Dict.{Dict, lookup, insert}

-- The unit of clock readings: `monotonic()` counts nanoseconds.
abbrev pub ticks_per_second : ℕ
ticks_per_second = 1000000000

pub record FixedWindow : Type 0 where
  pub started_at : ℕ
  pub request_count : ℕ

pub record FixedWindowRateLimiter : Type 0 where
  pub request_limit : ℕ
  pub window_seconds : ℕ
  pub windows : Dict Text FixedWindow

unfoldable pub store_window : Text → FixedWindow → FixedWindowRateLimiter → FixedWindowRateLimiter
store_window client_key window limiter = record limiter {
  windows = insert client_key window limiter.windows;
}

abbrev pub window_ticks : FixedWindowRateLimiter → ℕ
window_ticks limiter = limiter.window_seconds * ticks_per_second

-- `ceil` of a number of seconds given in ticks
abbrev pub ceil_seconds : ℕ → ℕ
ceil_seconds ticks = (ticks + (ticks_per_second - 1)) / ticks_per_second

-- The body of `check` for the window found. The order of the sums keeps the differences from 0: the
-- window has expired if `current_time - started_at >= window_seconds`.
unfoldable pub check_window :
    ℕ → Text → Option FixedWindow → FixedWindowRateLimiter → Option ℕ × FixedWindowRateLimiter
check_window current_time client_key none limiter = (
  none,
  store_window client_key (record { started_at = current_time; request_count = 1 }) limiter,
)
check_window current_time client_key (some window) limiter =
    if leb (window.started_at + window_ticks limiter) current_time
    then (
      none,
      store_window client_key (record { started_at = current_time; request_count = 1 }) limiter,
    )
    else if ltb window.request_count limiter.request_limit
    then (
      none,
      store_window client_key (record window { request_count = window.request_count + 1 }) limiter,
    )
    else (
      some (max 1 (ceil_seconds (window.started_at + window_ticks limiter - current_time))),
      limiter,
    )

unfoldable pub check : ℕ → Text → FixedWindowRateLimiter → Option ℕ × FixedWindowRateLimiter
unfolding check_window
check current_time client_key limiter =
    check_window current_time client_key (lookup client_key limiter.windows) limiter
