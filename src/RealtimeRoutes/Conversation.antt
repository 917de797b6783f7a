-- ===== src/RealtimeRoutes/Conversation.antt =====
-- routers/realtime.py, realtime_broker.py, realtime_event_handler.py, connection_manager.py: from what
-- a client sends to what the connections of its user get.
use fastapi_task_api.Base.{
  ◌≡◌, refl, sym, ap, ◌∙◌, false, List, [], ◌∷◌, ◌++◌, map, drop, length, drop-append,
}
use mathlib.Core.List.{append-nil, append_assoc}
use fastapi_task_api.Base.Int.{ℤ, pos, ◌≤ℤ◌}
use fastapi_task_api.Base.Text.{Text, codes}
use fastapi_task_api.ConnectionManager.{
  WebSocket, ConnectionManager, Completion, connections_of, broadcast_to_user, send_to_connection,
}
use fastapi_task_api.RealtimeBroker.{Publishing, RedisRealtimeEventPublisher}
use fastapi_task_api.RealtimeBroker.Delivery.{wire, received, on_message_lem, as_text}
use fastapi_task_api.RealtimeModels.{Json, JsonLaws, RealtimeMessageEvent, text, to_each}
use fastapi_task_api.RealtimeRoutes.{Round, Session, broadcast_messages}
use fastapi_task_api.RealtimeRoutes.Published.{accepted, entry, broadcast-Publishes}
use fastapi_task_api.RealtimeSubscriber.{serialized, Received, Listener, listen_once}
use fastapi_task_api.Redis.{Redis, delivered}

-- Every send succeeds.
abbrev pub all_sent : List WebSocket → List Completion
all_sent connections = map (λ c. record { connection = c; is_disconnected = false }) connections

-- What a subscriber gets for what has been published on a channel.
abbrev pub received_of : List (Text × Text) → List Received
received_of [] = []
received_of ((channel, t) ∷ published) =
    record {
      message = record {
        type = serialized (text (codes "message"));
        channel = serialized (text channel);
        content = serialized (text t);
      };
      completes = all_sent;
    }
    ∷ received_of published

all_sent_lem :
    (u : ℤ) (cs : List WebSocket) (m : ConnectionManager) → broadcast_to_user u (all_sent cs) m ≡ m
unfolding broadcast_to_user send_to_connection
all_sent_lem u [] m = refl
all_sent_lem u (c ∷ cs) m = all_sent_lem u cs m

module _ (json : Json) (laws : JsonLaws json) where
  -- Each message goes to each connection.
  unfoldable pub sent_for : List Text → List WebSocket → List (WebSocket × Text)
  sent_for [] connections = []
  sent_for (message ∷ messages) connections =
      to_each (json.dump_event (record { content = message })) connections
      ++ sent_for messages connections

  received_lem :
      (u : ℤ) (message : Text) (l : Listener)
      → received json laws u (record { content = message }) all_sent l ≡ record l {
        sent =
            l.sent
            ++ to_each
                (json.dump_event (record { content = message }))
                (connections_of u l.manager);
      }
  received_lem u message l = simp (all_sent_lem u (connections_of u l.manager) l.manager)

  listened_lem :
      (u : ℤ) (publisher : RedisRealtimeEventPublisher) (messages : List Text) (l : Listener)
      → pos 1 ≤ℤ u
      → listen_once json
          (received_of
            (map (λ m. (publisher.channel, wire json u (record { content = m }))) messages))
          l
        ≡ record l { sent = l.sent ++ sent_for messages (connections_of u l.manager) }
  unfolding listen_once sent_for
  listened_lem u publisher [] l valid = ap (λ x. record l { sent = x }) (sym (append-nil l.sent))
  listened_lem u publisher (m ∷ messages) l valid =
      let event : RealtimeMessageEvent = record { content = m } in
      let connections = connections_of u l.manager in
      let sent = to_each (json.dump_event event) connections in
      let rest =
        received_of
          (map (λ m. (publisher.channel, wire json u (record { content = m }))) messages) in
      ap (λ x. listen_once json rest x)
        (on_message_lem json laws all_sent u event publisher.channel _ l valid as_text
          ∙ received_lem u m l)
      ∙ listened_lem u publisher messages (record l { sent = l.sent ++ sent }) valid
      ∙ ap (λ x. record l { sent = x }) (append_assoc l.sent sent (sent_for messages connections))

module _ (redis : Redis) (p : Publishing redis) (json : Json) (laws : JsonLaws json)
    (publisher : RedisRealtimeEventPublisher) (u : ℤ) (valid : pos 1 ≤ℤ u)
    (quiet : (s : redis.State) → redis.fault s ≡ delivered)
    (alone : (s : redis.State) → p.published (redis.arrive s) ≡ p.published s) where
  -- While the network delivers every call and nobody else publishes, for a user with an id of at
  -- least 1: when a subscriber has got what the broadcast route of this user has published, and every
  -- send has succeeded, then every connection of the user, and no other, has been sent each of the
  -- client's accepted messages up to the first round with anything else, in the client's order, each
  -- once; the connections are as they were.
  pub conversation :
      (w : WebSocket) (rounds : List Round) (s : Session redis) (l : Listener)
      → let r = broadcast_messages redis p json publisher u w rounds s in
        let news = drop (length (p.published s.server)) (p.published r.1.server) in
        listen_once json (received_of news) l ≡ record l {
          sent = l.sent ++ sent_for json laws (accepted rounds) (connections_of u l.manager);
        }
  conversation w rounds s l =
      let news = map (entry redis p json publisher u) (accepted rounds) in
      let published =
        (broadcast-Publishes redis p json publisher u valid quiet alone w rounds s).0 in
      ap (λ x. listen_once json (received_of (drop (length (p.published s.server)) x)) l) published
      ∙ ap (λ x. listen_once json (received_of x) l) (drop-append (p.published s.server) news)
      ∙ listened_lem json laws u publisher (accepted rounds) l valid
