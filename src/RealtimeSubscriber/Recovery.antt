-- ===== src/RealtimeSubscriber/Recovery.antt =====
-- realtime_broker.py, reconnect_backoff.py: how long the subscriber waits between subscriptions.
use fastapi_task_api.Base.{
  ℕ, subst, suc, ◌*◌, ◌≤◌, ◌≡◌, Bool, true, false, min, dec_lt, List, [], ◌∷◌, ltb, ok,
  if◌then◌else◌, arith,
}
use fastapi_task_api.Base.Int.{pos}
use fastapi_task_api.Base.Text.{Text}
use fastapi_task_api.ConnectionManager.{ConnectionManager}
use fastapi_task_api.RealtimeModels.{Json}
use fastapi_task_api.ReconnectBackoff
use fastapi_task_api.ReconnectBackoff.{ReconnectBackoff, reset, next_delay}
use fastapi_task_api.ReconnectBackoff.Doubling.{power}
use fastapi_task_api.RealtimeSubscriber.Confirmations.{
  confirmations, ended_with, delaying, delaying_lem, start,
}
use fastapi_task_api.RealtimeSubscriber.{
  RedisRealtimeEventSubscriber, Listener, Subscription, create, is_survived, listen, Listening,
  slept, stop,
}

-- The outages since the last confirmation, when a subscription ends after `k` of them.
pub outages : Text → ℕ → Subscription → ℕ
outages channel k s = if ltb 0 (confirmations channel s.messages) then 0 else k

-- No delay is longer than the initial one doubled with each outage since the last confirmation, nor
-- than the maximum.
abbrev pub IsCapped : (initial maximum : ℕ) → Text → ℕ → List Subscription → List ℕ → Type 0
IsCapped initial maximum channel k _ [] = Unit
IsCapped initial maximum channel k [] (d ∷ delays) = ⊥
IsCapped initial maximum channel k (s ∷ subscriptions) (d ∷ delays) =
    (d ≤ min (power (outages channel k s) * initial) maximum)
    × IsCapped initial maximum channel (suc (outages channel k s)) subscriptions delays

-- The backoff after `k` outages.
abbrev IsAfter : (initial maximum k : ℕ) → ReconnectBackoff → Type 0
IsAfter initial maximum k b =
    (b.initial_delay ≡ initial)
    × (b.maximum_delay ≡ maximum)
    × (b.upcoming ≡ min (power k * initial) maximum)

doubled_cap : (p i m : ℕ) → min (min (p * i) m * 2) m ≡ min (2 * p * i) m
doubled_cap p i m = elim (dec_lt m (p * i)) [ yes above ↦ omega arith | no below ↦ omega arith ]

module _ (json : Json) (initial maximum : ℕ) where
  at_end :
      (k : ℕ) (s : Subscription) (l : Listener)
      → initial ≤ maximum
      → IsAfter initial maximum k l.subscriber.backoff
      → IsAfter initial maximum
          (outages l.subscriber.channel k s)
          (ended_with json s l).subscriber.backoff
  unfolding outages reset
  at_end k s l h a = ground (arith, delaying_lem json s l, h, a)

  delaying-IsAfter :
      (k : ℕ) (s : Subscription) (l : Listener)
      → initial ≤ maximum
      → IsAfter initial maximum k l.subscriber.backoff
      → ((next_delay (ended_with json s l).subscriber.backoff).0
          ≡ min (power (outages l.subscriber.channel k s) * initial) maximum)
        × IsAfter initial maximum
            (suc (outages l.subscriber.channel k s))
            (delaying json s l).subscriber.backoff
  unfolding next_delay
  delaying-IsAfter k s l h a = ground (
    arith,
    at_end k s l h a,
    doubled_cap (power (outages l.subscriber.channel k s)) initial maximum,
  )

slept-IsCapped :
    (initial maximum : ℕ) (channel : Text) (k : ℕ) (b : Bool) (s : Subscription)
    (subscriptions : List Subscription) (d : ℕ) (r : Listening) (l : Listener)
    → d ≤ min (power (outages channel k s) * initial) maximum
    → IsCapped initial maximum channel (suc (outages channel k s)) subscriptions r.delays
    → IsCapped initial maximum channel k
        (s ∷ subscriptions)
        (if b then slept d r else stop s.ending l).delays
slept-IsCapped initial maximum channel k true s subscriptions d r l h rest = (h, rest)
slept-IsCapped initial maximum channel k false s subscriptions d r l h rest = tt

module _ (json : Json) (jitter : ℕ → ℕ → ℕ)
    (bounded : (round maximum_delay : ℕ) → jitter round maximum_delay ≤ maximum_delay)
    (initial maximum : ℕ) where
  capped_lem :
      (round k : ℕ) (subscriptions : List Subscription) (l : Listener)
      → initial ≤ maximum
      → IsAfter initial maximum k l.subscriber.backoff
      → IsCapped initial maximum l.subscriber.channel k subscriptions
          (listen json jitter round subscriptions l).delays
  unfolding listen
  capped_lem round k [] l h a = tt
  capped_lem round k (s ∷ subscriptions) l h a =
      let after = delaying-IsAfter json initial maximum k s l h a in
      let rest =
        capped_lem (suc round) (suc (outages l.subscriber.channel k s)) subscriptions
          (delaying json s l) h after.1 in
      slept-IsCapped initial maximum l.subscriber.channel k
        (is_survived (ended_with json s l).subscriber.has_subscribed_once s.ending) s subscriptions
        (jitter round (next_delay (ended_with json s l).subscriber.backoff).0)
        (listen json jitter (suc round) subscriptions (delaying json s l)) (ended_with json s l)
        (ground
          (arith, after.0, bounded round (next_delay (ended_with json s l).subscriber.backoff).0))
        (subst
          (λ channel.
            IsCapped initial maximum channel (suc (outages l.subscriber.channel k s)) subscriptions
              (listen json jitter (suc round) subscriptions (delaying json s l)).delays)
          (delaying_lem json s l).1 rest)

  created_lem :
      (channel : Text) (s : RedisRealtimeEventSubscriber)
      → create channel (pos initial) (pos maximum) ≡ ok s
      → (s.channel ≡ channel) × (initial ≤ maximum) × IsAfter initial maximum 0 s.backoff
  unfolding create ReconnectBackoff.create
  created_lem [] s h = ground (arith, h)
  created_lem (c ∷ channel) s h = ground (arith, h)

  -- If the jitter stays within its bound, a new subscriber, whatever the server sends it and however
  -- its subscriptions end, waits after each of them at most the initial delay doubled with each
  -- subscription since the last that was confirmed, and at most the maximum delay.
  pub delays-IsCapped :
      (channel : Text) (subscriber : RedisRealtimeEventSubscriber) (manager : ConnectionManager)
      (subscriptions : List Subscription)
      → create channel (pos initial) (pos maximum) ≡ ok subscriber
      → IsCapped initial maximum channel 0 subscriptions
          (listen json jitter 0 subscriptions (start subscriber manager)).delays
  delays-IsCapped channel subscriber manager subscriptions created =
      let known = created_lem channel subscriber created in
      subst
        (λ c.
          IsCapped initial maximum c 0 subscriptions
            (listen json jitter 0 subscriptions (start subscriber manager)).delays)
        known.0 (capped_lem 0 0 subscriptions (start subscriber manager) known.1 known.2)
