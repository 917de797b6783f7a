-- ===== src/RealtimeBroker/Delivery.antt =====
-- realtime_broker.py, realtime_event_handler.py: from a published event to the user's connections.
use fastapi_task_api.Base.{◌≡◌, List, [], ◌∷◌, ◌++◌, ok, err, validation_error, arith}
use fastapi_task_api.Base.Int.{ℤ, pos, ◌≤ℤ◌}
use fastapi_task_api.Base.Text.{Text, codes}
use fastapi_task_api.ConnectionManager.{WebSocket, Completion, connections_of, broadcast_to_user}
use fastapi_task_api.RealtimeBroker.{
  Publishing, RedisRealtimeEventPublisher, publish_to_user, publish_envelope,
}
use fastapi_task_api.RealtimeModels.{
  RealtimeMessageEvent, create_envelope, Json, JsonLaws, handle, deliver, to_each, text, bytes,
  encode, encode_point,
}
use fastapi_task_api.RealtimeSubscriber.{
  serialized, Message, Listener, on_message, on_event, after_handle,
}
use fastapi_task_api.Redis.{Redis, delivered, call}

-- What stands on the channel's wire for an event to a user.
abbrev pub wire : Json → ℤ → RealtimeMessageEvent → Text
wire json user_id event = json.dump (record { user_id = user_id; event = event })

module _ (redis : Redis) (p : Publishing redis) (json : Json) where
  open redis use {State, arrive, fault}

  pub created_lem :
      (user_id : ℤ) (event : RealtimeMessageEvent)
      → pos 1 ≤ℤ user_id
      → create_envelope user_id event ≡ ok (record { user_id = user_id; event = event })
  unfolding create_envelope
  created_lem user_id event h = ground (arith, h)

  pub published_lem :
      (publisher : RedisRealtimeEventPublisher) (user_id : ℤ) (event : RealtimeMessageEvent)
      (s : State)
      → pos 1 ≤ℤ user_id
      → fault s ≡ delivered
      → let r = publish_to_user redis p json publisher user_id event s in
        p.published r.1
        ≡ p.published (arrive s) ++ (publisher.channel, wire json user_id event) ∷ []
  unfolding publish_to_user publish_envelope call
  published_lem publisher user_id event s valid sent = ground (
    arith,
    created_lem user_id event valid,
    sent,
    p.published-publish publisher.channel (wire json user_id event) (arrive s),
  )

-- A message of the channel that holds the event's text, or its bytes.
pub data IsOn (json : Json) (channel : Text) (user_id : ℤ) (event : RealtimeMessageEvent)
    : Message → Type 0 where
  as_text : IsOn json channel user_id event (record {
    type = serialized (text (codes "message"));
    channel = serialized (text channel);
    content = serialized (text (wire json user_id event));
  })
  as_bytes : IsOn json channel user_id event (record {
    type = serialized (bytes (encode (codes "message")));
    channel = serialized (bytes (encode channel));
    content = serialized (bytes (encode (wire json user_id event)));
  })

module _ (json : Json) (laws : JsonLaws json) where
  -- What the event of a user does to a listener.
  abbrev pub received :
      ℤ → RealtimeMessageEvent → (List WebSocket → List Completion) → Listener → Listener
  received user_id event completes l = record l {
    manager = broadcast_to_user user_id (completes (connections_of user_id l.manager)) l.manager;
    sent = l.sent ++ to_each (json.dump_event event) (connections_of user_id l.manager);
  }

  pub on_message_lem :
      (completes : List WebSocket → List Completion) (user_id : ℤ) (event : RealtimeMessageEvent)
      (channel : Text) (message : Message) (l : Listener)
      → pos 1 ≤ℤ user_id
      → IsOn json channel user_id event message
      → on_message json (record { message = message; completes = completes }) l
        ≡ received user_id event completes l
  unfolding on_message on_event after_handle handle deliver encode encode_point
  on_message_lem completes user_id event channel _ l valid as_text =
      simp (laws.validate-dump (record { user_id = user_id; event = event }) valid)
  on_message_lem completes user_id event channel _ l valid as_bytes =
      simp (laws.validate_bytes-dump (record { user_id = user_id; event = event }) valid)

module _ (redis : Redis) (p : Publishing redis) (json : Json) (laws : JsonLaws json) where
  -- While the network delivers it, an event that is published to a user is added to what has been
  -- published on the publisher's channel. Whether a subscriber then gets it as text or as bytes, it
  -- sends the event's own text to every connection of this user, in their order, and to nobody else,
  -- and drops from the user's connections those that turn out to be disconnected. An event to an id
  -- below 1 is refused with `ValidationError`, and nothing reaches the server.
  pub published_delivered :
      (publisher : RedisRealtimeEventPublisher) (user_id : ℤ) (event : RealtimeMessageEvent)
      (s : redis.State) (message : Message) (completes : List WebSocket → List Completion)
      (l : Listener)
      → redis.fault s ≡ delivered
      → IsOn json publisher.channel user_id event message
      → let r = publish_to_user redis p json publisher user_id event s in
        (pos 1 ≤ℤ user_id
          → (p.published r.1
              ≡ p.published (redis.arrive s) ++ (publisher.channel, wire json user_id event) ∷ [])
            × (on_message json (record { message = message; completes = completes }) l
                ≡ received json laws user_id event completes l))
        × (¬ (pos 1 ≤ℤ user_id) → r ≡ (err validation_error, s))
  unfolding publish_to_user publish_envelope create_envelope
  published_delivered publisher user_id event s message completes l sent on = (
    λ valid. (
      published_lem redis p json publisher user_id event s valid sent,
      on_message_lem json laws completes user_id event publisher.channel message l valid on,
    ),
    λ invalid. ground (arith, invalid),
  )
