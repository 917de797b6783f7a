-- ===== src/RealtimeSubscriber/Outages.antt =====
-- realtime_broker.py: which outages the subscriber outlives, and what it has counted by then.
use fastapi_task_api.Base.{
  ℕ, ◌+◌, ◌≡◌, refl, Bool, true, false, none, some, List, [], ◌∷◌, ◌++◌, ok, ◌≢◌, length, ltb, suc,
  arith,
}
use fastapi_task_api.Base.Text.{Text}
use fastapi_task_api.Base.Int.{ℤ}
use fastapi_task_api.ConnectionManager.{ConnectionManager}
use fastapi_task_api.RealtimeModels.{Json}
use fastapi_task_api.RealtimeSubscriber.Confirmations.{
  confirmations, ended_with, delaying, delaying_lem, start,
}
use fastapi_task_api.RealtimeSubscriber.{
  RedisRealtimeEventSubscriber, Listener, Ending, finished, connection_error, timeout_error,
  authentication_error, authorization_error, raised, Subscription, create, Listening, is_survived,
  listen,
}

-- A connection that broke, a timeout, or an end without an exception.
abbrev pub IsTransient : Ending → Type 0
IsTransient finished = Unit
IsTransient connection_error = Unit
IsTransient timeout_error = Unit
IsTransient _ = ⊥

abbrev pub AreTransient : List Subscription → Type 0
AreTransient [] = Unit
AreTransient (s ∷ subscriptions) = IsTransient s.ending × AreTransient subscriptions

pub confirmations_of : Text → List Subscription → ℕ
confirmations_of channel [] = 0
confirmations_of channel (s ∷ subscriptions) =
    confirmations channel s.messages + confirmations_of channel subscriptions

survived_lem : (e : Ending) → IsTransient e → is_survived true e ≡ true
unfolding is_survived
survived_lem finished t = refl
survived_lem connection_error t = refl
survived_lem timeout_error t = refl
survived_lem authentication_error t = absurd t
survived_lem authorization_error t = absurd t
survived_lem (raised e) t = absurd t

-- An error of the credentials or the permissions, or one that `listen` does not catch.
abbrev pub IsFatal : Ending → Type 0
IsFatal authentication_error = Unit
IsFatal authorization_error = Unit
IsFatal (raised e) = Unit
IsFatal _ = ⊥

fatal_lem : (b : Bool) (e : Ending) → IsFatal e → is_survived b e ≡ false
unfolding is_survived
fatal_lem b authentication_error f = refl
fatal_lem b authorization_error f = refl
fatal_lem b (raised e) f = refl
fatal_lem b finished f = absurd f
fatal_lem b connection_error f = absurd f
fatal_lem b timeout_error f = absurd f

created_lem :
    (channel : Text) (reconnect_delay maximum_reconnect_delay : ℤ)
    (subscriber : RedisRealtimeEventSubscriber)
    → create channel reconnect_delay maximum_reconnect_delay ≡ ok subscriber
    → (subscriber.channel ≡ channel)
      × (subscriber.has_subscribed_once ≡ false)
      × (subscriber.is_subscribed ≡ false)
      × (subscriber.subscription_generation ≡ 0)
unfolding create
created_lem [] i m subscriber h = ground (arith, h)
created_lem (c ∷ channel) i m subscriber h = ground (arith, h)

unconfirmed_lem : (e : Ending) → e ≢ finished → is_survived false e ≡ false
unfolding is_survived
unconfirmed_lem finished h = absurd (h refl)
unconfirmed_lem authentication_error h = refl
unconfirmed_lem authorization_error h = refl
unconfirmed_lem connection_error h = refl
unconfirmed_lem timeout_error h = refl
unconfirmed_lem (raised e) h = refl

module _ (json : Json) (jitter : ℕ → ℕ → ℕ) where
  abbrev pub Survives : List Subscription → Listener → Listening → Type 0
  Survives subscriptions l r =
      (r.ended ≡ none)
      × (length r.delays ≡ length subscriptions)
      × (r.listener.subscriber.subscription_generation
          ≡ l.subscriber.subscription_generation
            + confirmations_of l.subscriber.channel subscriptions)
      × (r.listener.subscriber.is_subscribed ≡ false)

  survives_lem :
      (round : ℕ) (subscriptions : List Subscription) (l : Listener)
      → l.subscriber.has_subscribed_once ≡ true
      → l.subscriber.is_subscribed ≡ false
      → AreTransient subscriptions
      → Survives subscriptions l (listen json jitter round subscriptions l)
  unfolding listen confirmations_of
  survives_lem round [] l once off transient = ground arith
  survives_lem round (s ∷ subscriptions) l once off transient = ground (
    arith,
    survived_lem s.ending transient.0,
    delaying_lem json s l,
    survives_lem (suc round) subscriptions (delaying json s l),
    once,
    transient.1,
  )

  stops_lem :
      (round : ℕ) (before : List Subscription) (last : Subscription) (later : List Subscription)
      (l : Listener)
      → l.subscriber.has_subscribed_once ≡ true
      → AreTransient before
      → IsFatal last.ending
      → let r = listen json jitter round (before ++ last ∷ later) l in
        (r.ended ≡ some last.ending) × (length r.delays ≡ length before)
  unfolding listen
  stops_lem round [] last later l once transient fatal =
      ground
        (arith, fatal_lem (ended_with json last l).subscriber.has_subscribed_once last.ending fatal)
  stops_lem round (s ∷ before) last later l once transient fatal = ground (
    arith,
    survived_lem s.ending transient.0,
    delaying_lem json s l,
    stops_lem (suc round) before last later (delaying json s l),
    once,
    transient.1,
    fatal,
  )

  step_lem :
      (first : Subscription) (others : List Subscription) (l : Listener)
      → is_survived (ended_with json first l).subscriber.has_subscribed_once first.ending ≡ true
      → let rest = listen json jitter 1 others (delaying json first l) in
        let r = listen json jitter 0 (first ∷ others) l in
        (r.ended ≡ rest.ended)
        × (r.listener ≡ rest.listener)
        × (length r.delays ≡ suc (length rest.delays))
  unfolding listen
  step_lem first others l h = ground (arith, h)

  first-Survives :
      (first : Subscription) (others : List Subscription) (l : Listener)
      → (delaying json first l).subscriber.has_subscribed_once ≡ true
      → AreTransient (first ∷ others)
      → Survives (first ∷ others) l (listen json jitter 0 (first ∷ others) l)
  unfolding confirmations_of
  first-Survives first others l once transient = ground (
    arith,
    step_lem first others l,
    survived_lem first.ending transient.0,
    delaying_lem json first l,
    survives_lem 1 others (delaying json first l),
    once,
    transient.1,
  )

  ends_lem :
      (first : Subscription) (others : List Subscription) (l : Listener)
      → is_survived (ended_with json first l).subscriber.has_subscribed_once first.ending ≡ false
      → let r = listen json jitter 0 (first ∷ others) l in
        (r.ended ≡ some first.ending) × (r.delays ≡ [])
  unfolding listen
  ends_lem first others l h = ground (arith, h)

  -- Of a new subscriber: once its first subscription has been confirmed, `listen` goes on through all
  -- subscriptions that end by themselves, by a connection error or by a timeout, with one delay after
  -- each, and has then counted every confirmation as a generation and is not subscribed; it ends at
  -- the first subscription that ends by another error, with this error. A new subscriber whose first
  -- subscription ends by any error before it is confirmed ends with this error, without a delay.
  pub outages_survived :
      (channel : Text) (reconnect_delay maximum_reconnect_delay : ℤ)
      (subscriber : RedisRealtimeEventSubscriber) (manager : ConnectionManager)
      (first : Subscription) (others : List Subscription)
      → create channel reconnect_delay maximum_reconnect_delay ≡ ok subscriber
      → let l = start subscriber manager in
        let r = listen json jitter 0 (first ∷ others) l in
        ((ltb 0 (confirmations channel first.messages) ≡ true)
          → AreTransient (first ∷ others)
          → Survives (first ∷ others) l r
            × ((last : Subscription) (later : List Subscription)
                → IsFatal last.ending
                → let r' = listen json jitter 0 (first ∷ others ++ last ∷ later) l in
                  (r'.ended ≡ some last.ending) × (length r'.delays ≡ length (first ∷ others))))
        × (confirmations channel first.messages ≡ 0
            → first.ending ≢ finished
            → (r.ended ≡ some first.ending) × (r.delays ≡ []))
  outages_survived channel reconnect_delay maximum_reconnect_delay subscriber manager first others
        created =
      let l = start subscriber manager in
      let known = created_lem channel reconnect_delay maximum_reconnect_delay subscriber created in
      let after = delaying_lem json first l in
      let l' = delaying json first l in
      (
        λ confirmed_once transient.
            let goes_on = survived_lem first.ending transient.0 in
            let once : l'.subscriber.has_subscribed_once ≡ true =
              ground (arith, after, known, confirmed_once) in
            (
              first-Survives first others l once transient,
              λ last later fatal. ground (
                arith,
                step_lem first (others ++ last ∷ later) l,
                stops_lem 1 others last later l' once transient.1 fatal,
                goes_on,
                once,
              ),
            ),
        λ unconfirmed not_finished.
            let never : l'.subscriber.has_subscribed_once ≡ false =
              ground (arith, after, known, unconfirmed) in
            ends_lem first others l
              (ground (arith, never, unconfirmed_lem first.ending not_finished)),
      )
