-- ===== src/RealtimeBroker.antt =====
-- realtime_broker.py: class RedisRealtimeEventPublisher. PUBLISH is a command of the server that
-- Redis stands for; the texts published so far are a part of the server's state.
pub mod Delivery
use fastapi_task_api.Base.{
  ℕ, ◌≡◌, List, [], ◌∷◌, ◌++◌, Result, ok, err, value_error, Exec, pure, ◌>>=◌, raise, continue,
}
use fastapi_task_api.Base.Int.{ℤ}
use fastapi_task_api.Base.Text.{Text, codes}
use fastapi_task_api.RealtimeModels.{
  RealtimeMessageEvent, UserRealtimeEventEnvelope, create_envelope, Json,
}
use fastapi_task_api.Redis.{Redis, call}

abbrev pub realtime_events_channel : Text
realtime_events_channel = codes "realtime:user-events"

-- PUBLISH channel text: the number of subscribers that received it
pub record Publishing (redis : Redis) : Type 0 where
  pub publish : Text → Text → redis.State → ℕ × redis.State
  pub published : redis.State → List (Text × Text)
  pub published-publish :
      (channel text : Text) (s : redis.State)
      → published (publish channel text s).1 ≡ published s ++ (channel, text) ∷ []

pub record RedisRealtimeEventPublisher : Type 0 where
  pub channel : Text

unfoldable pub create : Text → Result RedisRealtimeEventPublisher
create [] = err (value_error "channel cannot be empty")
create (c ∷ channel) = ok (record { channel = c ∷ channel })

module _ (redis : Redis) (p : Publishing redis) (json : Json) where
  unfoldable pub publish_envelope : Text → Result UserRealtimeEventEnvelope → Exec redis.State ℕ
  unfolding call
  publish_envelope channel (err e) = raise e
  publish_envelope channel (ok envelope) = call redis (p.publish channel (json.dump envelope))

  unfoldable pub publish_to_user :
      RedisRealtimeEventPublisher → ℤ → RealtimeMessageEvent → Exec redis.State ℕ
  unfolding publish_envelope
  publish_to_user publisher user_id event =
      publish_envelope publisher.channel (create_envelope user_id event)
