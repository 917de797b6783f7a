-- ===== src/WebsocketAuthentication.antt =====
-- websocket_authentication.py.
pub mod Admission
use fastapi_task_api.Base.{
  Option, none, some, Result, ok, err, Error, redis_error, validation_error, websocket_exception,
  Exec, continue, pure, raise, ◌>>=◌, [], ◌∷◌, not, if◌then◌else◌,
}
use fastapi_task_api.Base.Int.{ℤ}
use fastapi_task_api.Base.Text.{Text}
use fastapi_task_api.Accounts.{UserTable, statement}
use fastapi_task_api.Models.{UserRecord}
use fastapi_task_api.Redis.{Redis}
use fastapi_task_api.WebsocketTickets.{consume}

abbrev pub no_credentials : Error
no_credentials = websocket_exception 1008 "Could not validate credentials"

-- What follows `ticket_store.consume`.
abbrev pub check_ticket {ℓ} : {S : Type ℓ} → Result (Option ℤ) × S → Result ℤ × S
check_ticket (ok none, s) = (err no_credentials, s)
check_ticket (ok (some user_id), s) = (ok user_id, s)
check_ticket (err redis_error, s) =
    (err (websocket_exception 1013 "Authentication service unavailable"), s)
check_ticket (err e, s) = (err e, s)

module _ (redis : Redis) where
  -- An empty ticket is refused by `Query(min_length=1)`.
  unfoldable pub consume_websocket_ticket : Text → Exec redis.State ℤ
  consume_websocket_ticket [] s = (err validation_error, s)
  consume_websocket_ticket (c ∷ ticket) s = check_ticket (consume redis (c ∷ ticket) s)

module _ (table : UserTable) where
  active_or_refuse : Option UserRecord → Exec table.State UserRecord
  active_or_refuse none = raise no_credentials
  active_or_refuse (some user_record) =
      if not user_record.is_active then raise no_credentials else pure user_record

  unfoldable pub get_websocket_current_user : ℤ → Exec table.State UserRecord
  unfolding active_or_refuse
  get_websocket_current_user user_id = do
    user_record ← statement table (λ s. (table.select_user user_id s, s))
    active_or_refuse user_record
