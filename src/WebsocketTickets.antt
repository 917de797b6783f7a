-- ===== src/WebsocketTickets.antt =====
-- websocket_tickets.py: class WebSocketTicketStore. `ticket_generator` (`uuid4().hex`) gives the
-- ticket as an argument. A ticket is a text, as is the user id that Redis stores under it.
pub mod SingleUse
use fastapi_task_api.Base.{
  ℕ, Bool, true, false, Option, none, some, Result, ok, err, value_error, runtime_error, Exec, pure,
  raise, ◌>>=◌, ◌++◌, if◌then◌else◌,
}
use fastapi_task_api.Base.Int.{ℤ, pos, pos_part, ltb_ℤ}
use fastapi_task_api.Base.Text.{Text, codes, str, int}
use fastapi_task_api.Redis.{Redis, call}

pub record WebSocketTicketStore : Type 0 where
  pub ttl_seconds : ℕ

unfoldable pub create : ℤ → Result WebSocketTicketStore
create ttl_seconds =
    if ltb_ℤ ttl_seconds (pos 1)
    then err (value_error "ttl_seconds must be at least 1")
    else ok (record { ttl_seconds = pos_part ttl_seconds })

-- `_build_key`
unfoldable pub build_key : Text → Text
build_key ticket = codes "websocket-ticket:" ++ ticket

-- `int(stored_user_id)`
abbrev pub parse_user_id : Option ℤ → Result (Option ℤ)
parse_user_id none = err (value_error "invalid literal for int()")
parse_user_id (some user_id) = ok (some user_id)

abbrev pub read_stored : Option Text → Result (Option ℤ)
read_stored none = ok none
read_stored (some stored_user_id) = parse_user_id (int stored_user_id)

module _ (redis : Redis) where
  open redis use {State}

  unfoldable pub issue : WebSocketTicketStore → ℤ → Text → Exec State Text
  unfolding call
  issue store user_id ticket = do
    stored ← call redis (redis.set_nx (build_key ticket) (str user_id) store.ttl_seconds)
    if stored then pure ticket else raise (runtime_error "Could not issue WebSocket ticket")

  unfoldable pub consume : Text → Exec State (Option ℤ)
  unfolding call
  consume ticket = do
    stored_user_id ← call redis (redis.getdel (build_key ticket))
    λ s. (read_stored stored_user_id, s)
