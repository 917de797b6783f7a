-- ===== src/RealtimeSubscriber/Confirmations.antt =====
-- realtime_broker.py: what a subscription leaves behind, by the confirmations in it.
use fastapi_task_api.Base.{
  ℕ, zero, ◌+◌, ◌≡◌, refl, false, ◌||◌, List, [], ◌∷◌, ltb, suc, if◌then◌else◌, arith,
}
use fastapi_task_api.Base.Text.{Text}
use fastapi_task_api.ConnectionManager.{ConnectionManager}
use fastapi_task_api.RealtimeModels.{Json}
use fastapi_task_api.ReconnectBackoff.{reset, next_delay}
use fastapi_task_api.RealtimeSubscriber.{
  RedisRealtimeEventSubscriber, Received, Listener, Subscription, is_confirmation, confirm,
  on_message, on_event, after_handle, listen_once, clear,
}

-- How many of the messages confirm a subscription to the channel.
pub confirmations : Text → List Received → ℕ
confirmations channel [] = 0
confirmations channel (r ∷ messages) =
    let rest = confirmations channel messages in
    if is_confirmation channel r.message then suc rest else rest

-- The subscriber after so many confirmations.
abbrev pub confirmed : ℕ → RedisRealtimeEventSubscriber → RedisRealtimeEventSubscriber
confirmed zero s = s
confirmed (suc n) s = confirmed n (confirm s)

module _ (json : Json) where
  on_message_subscriber :
      (r : Received) (l : Listener)
      → (on_message json r l).subscriber ≡ (
          if is_confirmation l.subscriber.channel r.message
          then confirm l.subscriber
          else l.subscriber)
  unfolding on_message on_event after_handle
  on_message_subscriber r l = ground arith

  pub listen_once_subscriber :
      (messages : List Received) (l : Listener)
      → (listen_once json messages l).subscriber
        ≡ confirmed (confirmations l.subscriber.channel messages) l.subscriber
  unfolding listen_once confirmations confirm
  listen_once_subscriber [] l = refl
  listen_once_subscriber (r ∷ messages) l =
      ground
        (arith, listen_once_subscriber messages (on_message json r l), on_message_subscriber r l)

-- The subscriber is no more than what its confirmations have made it.
pub confirmed_lem :
    (n : ℕ) (s : RedisRealtimeEventSubscriber)
    → ((confirmed n s).subscription_generation ≡ s.subscription_generation + n)
      × ((confirmed n s).channel ≡ s.channel)
      × ((confirmed n s).has_subscribed_once ≡ (s.has_subscribed_once || ltb 0 n))
      × ((confirmed n s).backoff ≡ (if ltb 0 n then reset s.backoff else s.backoff))
unfolding confirm reset
confirmed_lem zero s = ground arith
confirmed_lem (suc n) s = ground (arith, confirmed_lem n (confirm s))

-- The listener when a subscription has ended, and when the delay after it begins.
abbrev pub ended_with : Json → Subscription → Listener → Listener
ended_with json s l = clear (listen_once json s.messages l)

abbrev pub delaying : Json → Subscription → Listener → Listener
delaying json s l =
    let l₁ = ended_with json s l in
    record l₁ {
      subscriber = record l₁.subscriber { backoff = (next_delay l₁.subscriber.backoff).1 };
    }

module _ (json : Json) where
  pub delaying_lem :
      (s : Subscription) (l : Listener)
      → let n = confirmations l.subscriber.channel s.messages in
        let after = (delaying json s l).subscriber in
        (after.is_subscribed ≡ false)
        × (after.channel ≡ l.subscriber.channel)
        × (after.subscription_generation ≡ l.subscriber.subscription_generation + n)
        × (after.has_subscribed_once ≡ (l.subscriber.has_subscribed_once || ltb 0 n))
        × ((ended_with json s l).subscriber.backoff
            ≡ (if ltb 0 n then reset l.subscriber.backoff else l.subscriber.backoff))
  delaying_lem s l = ground (
    arith,
    listen_once_subscriber json s.messages l,
    confirmed_lem (confirmations l.subscriber.channel s.messages) l.subscriber,
  )

-- `listen` begins.
abbrev pub start : RedisRealtimeEventSubscriber → ConnectionManager → Listener
start subscriber manager = record { subscriber = subscriber; manager = manager; sent = [] }
