-- ===== src/RealtimeRoutes/Published.antt =====
-- routers/realtime.py, realtime_broker.py: what the broadcast route publishes, and how it ends.
use fastapi_task_api.Base.{
  ℕ, sym, ◌≡◌, refl, Bool, true, false, Option, none, some, List, [], ◌∷◌, ◌++◌, map, String,
  if◌then◌else◌, arith, Bool-cases, inl, inr, ok,
}
use mathlib.Core.List.{append-nil, append_assoc, map-append}
use fastapi_task_api.Base.Int.{ℤ, pos, ◌≤ℤ◌}
use fastapi_task_api.Base.Text.{Text}
use fastapi_task_api.ConnectionManager.{WebSocket, connect}
use fastapi_task_api.RealtimeBroker.{
  Publishing, RedisRealtimeEventPublisher, publish_to_user, publish_envelope,
}
use fastapi_task_api.RealtimeBroker.Delivery.{wire, created_lem}
use fastapi_task_api.RealtimeModels.{Json, is_client_content}
use fastapi_task_api.RealtimeRoutes.{
  Incoming, not_json, other_payload, content, disconnects, fails, Ended, returned, disconnected,
  raised, Round, Session, after_publish, on_incoming, serve, finish, broadcast_messages,
  pass_disconnect,
}
use fastapi_task_api.Redis.{Redis, delivered, call}

-- The client's message is accepted.
unfoldable pub is_event : Incoming → Bool
is_event (content message) = is_client_content message
is_event _ = false

abbrev pub message_of : Incoming → List Text
message_of (content message) = message ∷ []
message_of _ = []

-- The messages up to the first round without one.
unfoldable pub accepted : List Round → List Text
accepted [] = []
accepted (r ∷ rounds) =
    let rest = accepted rounds in if is_event r.incoming then message_of r.incoming ++ rest else []

-- How the route ends in a round without an accepted message, and how it closes the WebSocket.
abbrev pub answer : Incoming → Ended → Option (ℕ × String) → Ended × Option (ℕ × String)
answer disconnects closing closed = (returned, closed)
answer (fails e) closing closed = (raised e, closed)
answer _ closing closed = (pass_disconnect closing, some (1007, "Invalid message payload"))

-- The answer to the first such round.
pub answered : List Round → Option (ℕ × String) → Option Ended × Option (ℕ × String)
answered [] closed = (none, closed)
answered (r ∷ rounds) closed =
    let rest = answered rounds closed in
    if is_event r.incoming
    then rest
    else let (e, how) = answer r.incoming r.closing closed in (some e, how)

module _ (redis : Redis) (p : Publishing redis) (json : Json)
    (publisher : RedisRealtimeEventPublisher) (u : ℤ) where
  open redis use {State, fault, arrive}

  -- What one event adds.
  abbrev pub entry : Text → Text × Text
  entry message = (publisher.channel, wire json u (record { content = message }))

  abbrev pub Publishes : List Round → Session redis → Option Ended × Session redis → Type 0
  Publishes rounds s r =
      (p.published r.1.server ≡ p.published s.server ++ map entry (accepted rounds))
      × ((r.0, r.1.closed) ≡ answered rounds s.closed)

  module _ (valid : pos 1 ≤ℤ u) (quiet : (s : State) → fault s ≡ delivered)
      (alone : (s : State) → p.published (arrive s) ≡ p.published s) where
    sent_lem :
        (message : Text) (s : State)
        → let (n, t) =
            p.publish publisher.channel (wire json u (record { content = message })) (arrive s) in
          publish_to_user redis p json publisher u (record { content = message }) s ≡ (ok n, t)
    unfolding publish_to_user publish_envelope call
    sent_lem message s =
        ground (arith, created_lem redis p json u (record { content = message }) valid, quiet s)

    event_lem :
        (closing : Ended) (i : Incoming) (s : Session redis)
        → is_event i ≡ true
        → (t : State) × (on_incoming redis p json publisher u closing i s
            ≡ (none, record s { server = t }))
          × (p.published t ≡ p.published s.server ++ map entry (message_of i))
    unfolding on_incoming after_publish is_event
    event_lem closing (content message) s h =
        let sent =
          p.publish publisher.channel (wire json u (record { content = message }))
            (arrive s.server) in
        (
          sent.1,
          ground (arith, sent_lem message s.server, h),
          ground (
            arith,
            p.published-publish publisher.channel (wire json u (record { content = message }))
                (arrive s.server),
            alone s.server,
          ),
        )
    event_lem closing not_json s h = ground (arith, h)
    event_lem closing other_payload s h = ground (arith, h)
    event_lem closing disconnects s h = ground (arith, h)
    event_lem closing (fails e) s h = ground (arith, h)

    refused_lem :
        (closing : Ended) (i : Incoming) (s : Session redis)
        → is_event i ≡ false
        → let o = on_incoming redis p json publisher u closing i s in
          (e : Ended) × (o.0 ≡ some e)
          × ((pass_disconnect e, o.1.closed) ≡ answer i closing s.closed)
          × (o.1.server ≡ s.server)
    unfolding on_incoming is_event pass_disconnect
    refused_lem closing (content message) s h =
        (closing, ground (arith, h), ground (arith, h), ground (arith, h))
    refused_lem closing not_json s h = (closing, refl, refl, refl)
    refused_lem closing other_payload s h = (closing, refl, refl, refl)
    refused_lem closing disconnects s h = (disconnected, refl, refl, refl)
    refused_lem closing (fails e) s h = (raised e, refl, refl, refl)

    publishes_lem :
        (w : WebSocket) (rounds : List Round) (s : Session redis)
        → Publishes rounds s
            (finish redis p json publisher u w (serve redis p json publisher u rounds s))
    unfolding serve finish accepted answered
    publishes_lem w [] s = (sym (append-nil (p.published s.server)), refl)
    publishes_lem w (r ∷ rounds) s =
        let s₁ = record s { manager = r.meanwhile s.manager } in
        elim (Bool-cases (is_event r.incoming)) [
          | inl event ↦
              let (t, on, more) = event_lem r.closing r.incoming s₁ event in
              let (texts, ends) = publishes_lem w rounds (record s₁ { server = t }) in
              ground (
                arith,
                event,
                on,
                more,
                texts,
                ends,
                map-append entry (message_of r.incoming) (accepted rounds),
                append_assoc (p.published s.server) (map entry (message_of r.incoming))
                    (map entry (accepted rounds)),
              )
          | inr refused ↦
              let (e, ends, same, unsent) = refused_lem r.closing r.incoming s₁ refused in
              ground (arith, refused, ends, same, unsent, append-nil (p.published s.server))
        ]

    -- While the network delivers every call and nobody else publishes, for a user with an id of at
    -- least 1: the route publishes the client's accepted messages, those up to the first round with
    -- anything else, in their order and each once, as events to this user. That round decides how it
    -- ends: a text that is no JSON, or no accepted message, closes the WebSocket with 1007, a
    -- disconnect ends the route without an exception, and any other exception ends it with itself.
    pub broadcast-Publishes :
        (w : WebSocket) (rounds : List Round) (s : Session redis)
        → Publishes rounds s (broadcast_messages redis p json publisher u w rounds s)
    unfolding broadcast_messages
    broadcast-Publishes w rounds s =
        publishes_lem w rounds (record s { manager = connect u w s.manager })
