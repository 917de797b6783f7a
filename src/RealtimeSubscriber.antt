-- ===== src/RealtimeSubscriber.antt =====
-- realtime_broker.py: class RedisRealtimeEventSubscriber. A subscription is what the server sends, and
-- how it ends; `listen` runs over the subscriptions one after another, with the delays between them.
pub mod Confirmations
pub mod Outages
pub mod Recovery
use fastapi_task_api.Base.{
  ℕ, ◌+◌, ◌*◌, ◌-◌, ◌/◌, ◌%◌, Bool, true, false, ◌&&◌, ◌||◌, Option, none, some, Result, ok, err,
  Error, value_error, List, [], ◌∷◌, ◌++◌, ltb, if◌then◌else◌, suc,
}
use fastapi_task_api.Base.Int.{ℤ}
use fastapi_task_api.Base.Text.{Text, codes}
use fastapi_task_api.Base.Eq.{◌=?◌, text_eq}
use fastapi_task_api.ConnectionManager.{WebSocket, ConnectionManager, Completion}
use fastapi_task_api.RealtimeModels.{Serialized, text, bytes, encode, Json, Handled, handle}
use fastapi_task_api.ReconnectBackoff
use fastapi_task_api.ReconnectBackoff.{ReconnectBackoff, next_delay, reset}

-- What `message.get` may give.
pub data Value : Type 0 where
  serialized : Serialized → Value
  other : Value

pub record Message : Type 0 where
  pub type : Value
  pub channel : Value
  pub content : Value

-- `value in (text, text.encode("utf-8"))`
abbrev pub is_one_of : Text → Value → Bool
is_one_of t (serialized (text s)) = s =? t
is_one_of t (serialized (bytes s)) = s =? encode t
is_one_of t other = false

pub record RedisRealtimeEventSubscriber : Type 0 where
  pub channel : Text
  pub backoff : ReconnectBackoff
  pub is_subscribed : Bool
  pub has_subscribed_once : Bool
  pub subscription_generation : ℕ

abbrev pub with_backoff : Text → Result ReconnectBackoff → Result RedisRealtimeEventSubscriber
with_backoff channel (err e) = err e
with_backoff channel (ok backoff) = ok (record {
  channel = channel;
  backoff = backoff;
  is_subscribed = false;
  has_subscribed_once = false;
  subscription_generation = 0;
})

unfoldable pub create :
    Text → (reconnect_delay maximum_reconnect_delay : ℤ) → Result RedisRealtimeEventSubscriber
create [] reconnect_delay maximum_reconnect_delay = err (value_error "channel cannot be empty")
create (c ∷ channel) reconnect_delay maximum_reconnect_delay =
    with_backoff (c ∷ channel) (ReconnectBackoff.create reconnect_delay maximum_reconnect_delay)

-- The confirmation of a subscription to the channel.
abbrev pub is_confirmation : Text → Message → Bool
is_confirmation channel message =
    is_one_of (codes "subscribe") message.type && is_one_of channel message.channel

unfoldable pub confirm : RedisRealtimeEventSubscriber → RedisRealtimeEventSubscriber
confirm s = record s {
  backoff = reset s.backoff;
  is_subscribed = true;
  has_subscribed_once = true;
  subscription_generation = s.subscription_generation + 1;
}

-- The subscriber, the connections that its handler serves, and what the handler has sent.
pub record Listener : Type 0 where
  pub subscriber : RedisRealtimeEventSubscriber
  pub manager : ConnectionManager
  pub sent : List (WebSocket × Text)

-- A message, and how the sends end that it causes.
pub record Received : Type 0 where
  pub message : Message
  pub completes : List WebSocket → List Completion

-- How `_listen_once` ends: by itself, or by an exception of Redis or of another class. The first two
-- are subclasses of the third, which is why they are caught before it.
pub data Ending : Type 0 where
  finished : Ending
  authentication_error authorization_error connection_error timeout_error : Ending
  raised : Error → Ending

pub record Subscription : Type 0 where
  pub messages : List Received
  pub ending : Ending

module _ (json : Json) where
  unfoldable pub after_handle : Listener → Handled → Listener
  after_handle l h = record l { manager = h.manager; sent = l.sent ++ h.sent }

  -- A message of the type "message", by its data.
  unfoldable pub on_event : (List WebSocket → List Completion) → Value → Listener → Listener
  unfolding after_handle
  on_event completes (serialized s) l = after_handle l (handle json completes s l.manager)
  on_event completes other l = l

  -- One round of the loop in `_listen_once`.
  unfoldable pub on_message : Received → Listener → Listener
  unfolding on_event
  on_message r l =
      if is_confirmation l.subscriber.channel r.message
      then record l { subscriber = confirm l.subscriber }
      else if is_one_of (codes "message") r.message.type
      then on_event r.completes r.message.content l
      else l

  unfoldable pub listen_once : List Received → Listener → Listener
  listen_once [] l = l
  listen_once (r ∷ messages) l = listen_once messages (on_message r l)

-- `self._subscribed_event.clear()`
abbrev pub clear : Listener → Listener
clear l = record l { subscriber = record l.subscriber { is_subscribed = false } }

-- What a run of `listen` comes to: the listener, the delays slept so far, and how it ended; `none` if
-- it goes on.
pub record Listening : Type 0 where
  pub listener : Listener
  pub delays : List ℕ
  pub ended : Option Ending

abbrev pub stop : Ending → Listener → Listening
stop e l = record { listener = l; delays = []; ended = some e }

abbrev pub slept : ℕ → Listening → Listening
slept delay r = record r { delays = delay ∷ r.delays }

-- The `except` clauses of `listen`: whether the loop goes on.
unfoldable pub is_survived : Bool → Ending → Bool
is_survived has_subscribed_once finished = true
is_survived has_subscribed_once authentication_error = false
is_survived has_subscribed_once authorization_error = false
is_survived has_subscribed_once connection_error = has_subscribed_once
is_survived has_subscribed_once timeout_error = has_subscribed_once
is_survived has_subscribed_once (raised e) = false

module _ (json : Json) (jitter : ℕ → ℕ → ℕ) where
  -- `listen` over the subscriptions to come; `round` counts the calls of `jitter`.
  unfoldable pub listen : (round : ℕ) → List Subscription → Listener → Listening
  listen round [] l = record { listener = l; delays = []; ended = none }
  listen round (s ∷ subscriptions) l =
      let l₁ = clear (listen_once json s.messages l) in
      let (maximum_delay, backoff) = next_delay l₁.subscriber.backoff in
      let l₂ = record l₁ { subscriber = record l₁.subscriber { backoff = backoff } } in
      let rest = listen (suc round) subscriptions l₂ in
      if is_survived l₁.subscriber.has_subscribed_once s.ending
      then slept (jitter round maximum_delay) rest
      else stop s.ending l₁
