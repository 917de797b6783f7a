-- ===== src/Tests/Events.antt =====
-- realtime_broker.py, realtime_event_handler.py, routers/realtime.py on concrete events.
use fastapi_task_api.Base.{
  ℕ, ◌==◌, ◌≡◌, ◌≢◌, refl, true, false, ◌&&◌, Option, none, some, Result, ok, List, [], ◌∷◌, ◌++◌,
  length, drop, ltb, arith, if◌then◌else◌,
}
use fastapi_task_api.Base.Int.{ℤ, pos}
use fastapi_task_api.Base.Eq.{◌=?◌, int_eq, text_eq}
use fastapi_task_api.Base.Text.{codes}
use fastapi_task_api.Base.Dict.{lookup}
use fastapi_task_api.ConnectionManager.{WebSocket, is_in, connections_of, connect}
use fastapi_task_api.ConnectionManager.Membership.{IsValid}
use fastapi_task_api.ReconnectBackoff
use fastapi_task_api.RealtimeBroker.{
  Publishing, publish_envelope, RedisRealtimeEventPublisher, publish_to_user,
  realtime_events_channel,
}
use fastapi_task_api.RealtimeBroker.Delivery.{wire, received}
use fastapi_task_api.RealtimeModels.{RealtimeMessageEvent, create_envelope, text, is_client_content}
use fastapi_task_api.RealtimeRoutes.{
  content, Ended, returned, disconnected, Round, Session, serve, on_incoming, after_publish,
  broadcast_messages, pass_disconnect,
}
use fastapi_task_api.RealtimeRoutes.Membership.{broadcast_leaves}
use fastapi_task_api.RealtimeRoutes.Published.{accepted, is_event, Publishes, broadcast-Publishes}
use fastapi_task_api.RealtimeRoutes.Conversation.{all_sent, received_of, sent_for, conversation}
use fastapi_task_api.RealtimeSubscriber.{
  serialized, Message, Received, listen_once, finished, connection_error, Subscription,
  RedisRealtimeEventSubscriber, create, listen,
}
use fastapi_task_api.RealtimeSubscriber.Confirmations.{confirmations, start}
use fastapi_task_api.RealtimeSubscriber.Outages.{outages_survived, Survives, AreTransient, IsFatal}
use fastapi_task_api.RealtimeSubscriber.Recovery.{IsCapped, delays-IsCapped}
use fastapi_task_api.Redis.{call}
use fastapi_task_api.Redis.Server.{Memory, empty, quiet}
use fastapi_task_api.Tests.Envelopes.{plainly, plainly_laws}
use fastapi_task_api.Tests.Realtime.{three, three-IsValid, new_12}

abbrev publishing : Publishing quiet
publishing = record {
  publish = λ channel t m. (1, record m { messages = m.messages ++ (channel, t) ∷ [] });
  published = λ m. m.messages;
  published-publish = λ channel t m. refl;
}

abbrev publisher : RedisRealtimeEventPublisher
publisher = record { channel = realtime_events_channel }

abbrev hello : RealtimeMessageEvent
hello = record { content = codes "hello" }

abbrev hello_message : Message
hello_message = record {
  type = serialized (text (codes "message"));
  channel = serialized (text realtime_events_channel);
  content = serialized (text (wire plainly (pos 1) hello));
}

abbrev subscriber : RedisRealtimeEventSubscriber
subscriber = record {
  channel = realtime_events_channel;
  backoff = record { initial_delay = 1; maximum_delay = 30; upcoming = 1 };
  is_subscribed = false;
  has_subscribed_once = false;
  subscription_generation = 0;
}

abbrev sent_hello : Result ℕ × Memory
sent_hello = publish_to_user quiet publishing plainly publisher (pos 1) hello empty

-- Both connections of the user get it.
both_got :
    (received plainly plainly_laws (pos 1) hello all_sent (start subscriber three)).sent
    ≡ (10, codes "hello") ∷ (11, codes "hello") ∷ []
unfolding connections_of lookup
both_got = refl

abbrev confirmation : Received
confirmation = record {
  message = record {
    type = serialized (text (codes "subscribe"));
    channel = serialized (text realtime_events_channel);
    content = serialized (text []);
  };
  completes = all_sent;
}

abbrev first : Subscription
first = record { messages = confirmation ∷ []; ending = connection_error }

abbrev second : Subscription
second = record { messages = []; ending = finished }

created : create realtime_events_channel (pos 1) (pos 30) ≡ ok subscriber
unfolding create ReconnectBackoff.create
created = refl

abbrev full : ℕ → ℕ → ℕ
full round maximum_delay = maximum_delay

outages_survived_example :
    let l = start subscriber three in
    let r = listen plainly full 0 (first ∷ second ∷ []) l in
    (ltb 0 (confirmations realtime_events_channel (confirmation ∷ [])) ≡ true
      → AreTransient (first ∷ second ∷ [])
      → Survives plainly full (first ∷ second ∷ []) l r
        × ((last : Subscription) (later : List Subscription)
            → IsFatal last.ending
            → let r' = listen plainly full 0 (first ∷ second ∷ last ∷ later) l in
              (r'.ended ≡ some last.ending) × (length r'.delays ≡ 2)))
    × (confirmations realtime_events_channel (confirmation ∷ []) ≡ 0
        → connection_error ≢ finished
        → (r.ended ≡ some connection_error) × (r.delays ≡ []))
outages_survived_example =
    outages_survived plainly full realtime_events_channel (pos 1) (pos 30) subscriber three first
      (second ∷ []) created

delays-IsCapped_example :
    IsCapped 1 30 realtime_events_channel 0
      (first ∷ second ∷ second ∷ [])
      (listen plainly full 0 (first ∷ second ∷ second ∷ []) (start subscriber three)).delays
delays-IsCapped_example =
    delays-IsCapped plainly full (λ round m. omega arith) 1 30 realtime_events_channel subscriber
      three (first ∷ second ∷ second ∷ []) created

-- A message, one that is too short, and one that is not read any more.
abbrev rounds : List Round
rounds =
    record { incoming = content (codes "hi"); closing = returned; meanwhile = λ m. m }
    ∷ record { incoming = content []; closing = disconnected; meanwhile = λ m. m }
    ∷ record { incoming = content (codes "late"); closing = returned; meanwhile = λ m. m }
    ∷ []

abbrev begun : Session quiet
begun = record { manager = three; server = empty; closed = none }

abbrev looped : Option Ended × Session quiet
looped =
    serve quiet publishing plainly publisher (pos 1) rounds
      (record begun { manager = connect (pos 1) 12 three })

refused_lem : looped.0 ≡ some disconnected
unfolding serve on_incoming after_publish publish_to_user publish_envelope create_envelope call
    is_client_content
refused_lem = refl

broadcast_leaves_example :
    let r = broadcast_messages quiet publishing plainly publisher (pos 1) 12 rounds begun in
    (r.0 ≡ some (pass_disconnect disconnected))
    × IsValid r.1.manager
    × ((j : ℤ) (c : WebSocket)
        → is_in c (connections_of j r.1.manager) ≡ (
            if (pos 1 =? j) && (12 == c)
            then false
            else is_in c (connections_of j looped.1.manager)))
broadcast_leaves_example =
    broadcast_leaves quiet publishing plainly publisher (pos 1) 12 rounds begun disconnected
      three-IsValid new_12 (((λ m v. v)), ((λ m v. v), ((λ m v. v), tt))) refused_lem

broadcast-Publishes_example :
    Publishes quiet publishing plainly publisher
      (pos 1)
      rounds
      begun
      (broadcast_messages quiet publishing plainly publisher (pos 1) 12 rounds begun)
broadcast-Publishes_example =
    broadcast-Publishes quiet publishing plainly publisher (pos 1) (omega arith) (λ s. refl)
      (λ s. refl) 12 rounds begun

conversation_example :
    let r = broadcast_messages quiet publishing plainly publisher (pos 1) 12 rounds begun in
    let news = drop (length begun.server.messages) r.1.server.messages in
    let l = start subscriber three in
    listen_once plainly (received_of news) l ≡ record l {
      sent =
          l.sent
          ++ sent_for plainly plainly_laws (accepted rounds) (connections_of (pos 1) l.manager);
    }
conversation_example =
    conversation quiet publishing plainly plainly_laws publisher (pos 1) (omega arith) (λ s. refl)
      (λ s. refl) 12 rounds begun (start subscriber three)

-- The message reaches both connections of the user.
both_hear :
    sent_for plainly plainly_laws (accepted rounds) (connections_of (pos 1) three)
    ≡ (10, codes "hi") ∷ (11, codes "hi") ∷ []
unfolding sent_for accepted is_event is_client_content connections_of lookup
both_hear = refl
