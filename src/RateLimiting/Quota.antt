-- ===== src/RateLimiting/Quota.antt =====
-- rate_limiting.py: how many requests of a client pass in a window, and how long the others wait.
use fastapi_task_api.Base.{
  ℕ, ◌+◌, ◌-◌, ◌*◌, ◌≤◌, ◌<◌, ◌≡◌, ◌≢◌, min, none, some, List, [], ◌∷◌, length, All, inl, inr,
  Option-cases, if◌then◌else◌, arith,
}
use fastapi_task_api.Base.Text.{Text}
use fastapi_task_api.Base.Eq.{◌=?◌, text_eq}
use fastapi_task_api.Base.Dict.{lookup, insert, lookup-insert, =?_refl}
use fastapi_task_api.RateLimiting.{
  FixedWindow, FixedWindowRateLimiter, ticks_per_second, window_ticks, store_window, check_window,
  check,
}

lookup-store_window :
    (k j : Text) (w : FixedWindow) (l : FixedWindowRateLimiter)
    → lookup j (store_window k w l).windows ≡ (if k =? j then some w else lookup j l.windows)
unfolding store_window
lookup-store_window k j w l = lookup-insert k j w l.windows

-- The requests of one client that pass, at clock readings of a list.
pub passed : Text → List ℕ → FixedWindowRateLimiter → ℕ
passed client_key [] limiter = 0
passed client_key (now ∷ times) limiter =
    let (retry_after, limiter') = check now client_key limiter in
    (elim retry_after [ none ↦ 1 | some seconds ↦ 0 ]) + passed client_key times limiter'

passed_in_window :
    (times : List ℕ) (k : Text) (w : FixedWindow) (l : FixedWindowRateLimiter)
    → lookup k l.windows ≡ some w
    → All (λ now. now < w.started_at + window_ticks l) times
    → passed k times l ≡ min (length times) (l.request_limit - w.request_count)
unfolding passed check store_window
passed_in_window [] k w l h within = omega arith
passed_in_window (now ∷ times) k w l h within =
    let w' : FixedWindow = record w { request_count = w.request_count + 1 } in
    ground (
      arith,
      h,
      passed_in_window times k w l h,
      passed_in_window times k w' (record l { windows = insert k w' l.windows }),
      lookup-insert k k w' l.windows,
      =?_refl k,
    )

-- For a client without a window, of the requests whose clock readings fall within the window that
-- the first of them opens, exactly the first `request_limit` pass (all of them, if there are fewer).
pub window_quota :
    (now : ℕ) (times : List ℕ) (k : Text) (l : FixedWindowRateLimiter)
    → lookup k l.windows ≡ none
    → 1 ≤ l.request_limit
    → All (λ t. t < now + window_ticks l) times
    → passed k (now ∷ times) l ≡ min (length (now ∷ times)) l.request_limit
unfolding passed check store_window
window_quota now times k l h limit within =
    let w : FixedWindow = record { started_at = now; request_count = 1 } in
    ground (
      arith,
      passed_in_window times k w (record l { windows = insert k w l.windows }),
      lookup-insert k k w l.windows,
      =?_refl k,
    )

-- A request that is refused at `now` is told to wait at least 1 second, and at most the length of
-- the window if the window started at or before `now`; after that wait it passes.
pub refusal_wait :
    (now : ℕ) (k : Text) (w : FixedWindow) (l : FixedWindowRateLimiter) (seconds : ℕ)
    → lookup k l.windows ≡ some w
    → w.started_at ≤ now
    → 1 ≤ l.window_seconds
    → (check now k l).0 ≡ some seconds
    → (1 ≤ seconds)
      × (seconds ≤ l.window_seconds)
      × ((check (now + seconds * ticks_per_second) k (check now k l).1).0 ≡ none)
unfolding check
refusal_wait now k w l seconds h started pos_window refused = ground arith

check_keeps :
    (now : ℕ) (k j : Text) (l : FixedWindowRateLimiter)
    → k ≢ j
    → (lookup j (check now k l).1.windows ≡ lookup j l.windows)
      × ((check now k l).1.request_limit ≡ l.request_limit)
      × ((check now k l).1.window_seconds ≡ l.window_seconds)
unfolding check store_window
check_keeps now k j l ne = elim (Option-cases (lookup k l.windows)) [
  | inl fresh ↦ ground (
    arith,
    fresh,
    text_eq.beq_iff k j,
    lookup-insert k j (record { started_at = now; request_count = 1 }) l.windows,
  )
  | inr (w, found) ↦ ground (
    arith,
    found,
    text_eq.beq_iff k j,
    lookup-insert k j (record { started_at = now; request_count = 1 }) l.windows,
    lookup-insert k j (record w { request_count = w.request_count + 1 }) l.windows,
  )
]

-- An answer depends on the client's own window and the settings.
check_local :
    (now : ℕ) (j : Text) (l l' : FixedWindowRateLimiter)
    → lookup j l.windows ≡ lookup j l'.windows
    → l.request_limit ≡ l'.request_limit
    → l.window_seconds ≡ l'.window_seconds
    → (check now j l).0 ≡ (check now j l').0
unfolding check
check_local now j l l' e limit seconds = elim (Option-cases (lookup j l'.windows)) [
  | inl fresh ↦ rw (e, fresh, check_window)
  | inr (w, found) ↦ rw (e, found) (ground arith)
]

-- The requests of a client neither change the answers to another client nor its window.
pub clients_apart :
    (now later : ℕ) (k j : Text) (l : FixedWindowRateLimiter)
    → k ≢ j
    → ((check later j (check now k l).1).0 ≡ (check later j l).0)
      × (lookup j (check now k l).1.windows ≡ lookup j l.windows)
clients_apart now later k j l ne =
    let (kept, limit, seconds) = check_keeps now k j l ne in
    (check_local later j (check now k l).1 l kept limit seconds, kept)
