-- ===== src/RealtimeRoutes.antt =====
-- routers/realtime.py. What the client sends is a list of rounds; while a coroutine waits, the others
-- may change the connections. The loop has not ended when the rounds run out.
pub mod Membership
pub mod Published
pub mod Conversation
use fastapi_task_api.Base.{
  ℕ, Bool, Option, none, some, Result, ok, err, Error, redis_error, List, [], ◌∷◌, ◌++◌, String,
  if◌then◌else◌,
}
use fastapi_task_api.Base.Int.{ℤ}
use fastapi_task_api.Base.Text.{Text}
use fastapi_task_api.ConnectionManager
use fastapi_task_api.ConnectionManager.{WebSocket, ConnectionManager, connect, disconnect}
use fastapi_task_api.RealtimeBroker.{Publishing, RedisRealtimeEventPublisher, publish_to_user}
use fastapi_task_api.RealtimeModels.{Json, is_client_content}
use fastapi_task_api.Redis.{Redis}

-- What `receive_json` comes to, where `ClientBroadcastMessage` reads the payload.
pub data Incoming : Type 0 where
  -- `JSONDecodeError`
  not_json : Incoming
  -- JSON that is no object with a text `content` and nothing else
  other_payload : Incoming
  content : Text → Incoming
  -- `WebSocketDisconnect`
  disconnects : Incoming
  -- an exception of another class
  fails : Error → Incoming

-- How the `try` block, or the call of `close`, ends.
pub data Ended : Type 0 where
  returned disconnected : Ended
  raised : Error → Ended

pub record Round : Type 0 where
  pub incoming : Incoming
  -- how `close` ends, if this round calls it
  pub closing : Ended
  -- what other coroutines do to the connections in this round
  pub meanwhile : ConnectionManager → ConnectionManager

-- What the route has changed: the connections, the server of Redis, and how it closed the WebSocket.
pub record Session (redis : Redis) : Type 0 where
  pub manager : ConnectionManager
  pub server : redis.State
  pub closed : Option (ℕ × String)

-- `except WebSocketDisconnect: pass`
unfoldable pub pass_disconnect : Ended → Ended
pass_disconnect returned = returned
pass_disconnect disconnected = returned
pass_disconnect (raised e) = raised e

module _ (redis : Redis) (p : Publishing redis) (json : Json)
    (publisher : RedisRealtimeEventPublisher) (user_id : ℤ) where
  abbrev pub close : Ended → ℕ → String → Session redis → Option Ended × Session redis
  close closing code reason s = (some closing, record s { closed = some (code, reason) })

  abbrev pub refuse : Ended → Session redis → Option Ended × Session redis
  refuse closing s = close closing 1007 "Invalid message payload" s

  -- What follows `publish_to_user`.
  unfoldable pub after_publish :
      Ended → Result ℕ × redis.State → Session redis → Option Ended × Session redis
  after_publish closing (ok n, server) s = (none, record s { server = server })
  after_publish closing (err redis_error, server) s =
      close closing 1013 "Realtime service unavailable" (record s { server = server })
  after_publish closing (err e, server) s = (some (raised e), record s { server = server })

  -- One round of the loop; `none` if it goes on.
  unfoldable pub on_incoming : Ended → Incoming → Session redis → Option Ended × Session redis
  unfolding after_publish
  on_incoming closing not_json s = refuse closing s
  on_incoming closing other_payload s = refuse closing s
  on_incoming closing (content message) s =
      if is_client_content message
      then after_publish closing
          (publish_to_user redis p json publisher user_id (record { content = message }) s.server) s
      else refuse closing s
  on_incoming closing disconnects s = (some disconnected, s)
  on_incoming closing (fails e) s = (some (raised e), s)

  abbrev pub go_on :
      (Session redis → Option Ended × Session redis)
      → Option Ended × Session redis
      → Option Ended × Session redis
  go_on rest (none, s) = rest s
  go_on rest (some e, s) = (some e, s)

  -- The loop, from the rounds to come.
  unfoldable pub serve : List Round → Session redis → Option Ended × Session redis
  serve [] s = (none, s)
  serve (r ∷ rounds) s =
      go_on (serve rounds)
        (on_incoming r.closing r.incoming (record s { manager = r.meanwhile s.manager }))

  -- `except` and `finally`
  unfoldable pub finish : WebSocket → Option Ended × Session redis → Option Ended × Session redis
  finish websocket (none, s) = (none, s)
  finish websocket (some e, s) =
      (some (pass_disconnect e), record s { manager = disconnect user_id websocket s.manager })

  unfoldable pub broadcast_messages :
      WebSocket → List Round → Session redis → Option Ended × Session redis
  unfolding finish
  broadcast_messages websocket rounds s =
      finish websocket (serve rounds (record s { manager = connect user_id websocket s.manager }))

-- What `receive_text` and `send_text` of one round of `echo_messages` come to.
pub data Echoed : Type 0 where
  answered : Text → Echoed
  unanswered : Text → Ended → Echoed
  unread : Ended → Echoed

-- How the route ends, if it does, and the texts sent.
unfoldable pub echo_messages : List Echoed → Option Ended × List Text
echo_messages [] = (none, [])
echo_messages (answered message ∷ rounds) =
    let rest = echo_messages rounds in (rest.0, message ∷ rest.1)
echo_messages (unanswered message e ∷ rounds) = (some (pass_disconnect e), [])
echo_messages (unread e ∷ rounds) = (some (pass_disconnect e), [])
