-- ===== src/UserModels.antt =====
-- user_models.py: the bodies of requests and responses about users.
use fastapi_task_api.Base.{
  Bool, ◌&&◌, leb, length, Result, ok, err, validation_error, if◌then◌else◌,
}
use fastapi_task_api.Base.Int.{ℤ, pos, leb_ℤ}
use fastapi_task_api.Base.Text.{Text}
use fastapi_task_api.Models.{UserRecord}

pub record UserCreate : Type 0 where
  pub username : Text
  pub password : Text

-- `Field(min_length=3, max_length=50)` and `Field(min_length=8, max_length=128)`
unfoldable pub is_user_create : UserCreate → Bool
is_user_create c =
    (leb 3 (length c.username) && leb (length c.username) 50)
    && (leb 8 (length c.password) && leb (length c.password) 128)

pub record UserResponse : Type 0 where
  pub id : ℤ
  pub username : Text
  pub is_active : Bool

-- `UserResponse.model_validate(user_record)`
abbrev pub user_response : UserRecord → UserResponse
user_response u = record { id = u.id; username = u.username; is_active = u.is_active }

pub record TokenResponse : Type 0 where
  pub access_token : Text
  pub token_type : Text

pub record WebSocketTicketResponse : Type 0 where
  pub ticket : Text
  pub expires_in : ℤ

-- `WebSocketTicketResponse(ticket=…, expires_in=…)`
unfoldable pub ticket_response : Text → ℤ → Result WebSocketTicketResponse
ticket_response ticket expires_in =
    if leb 1 (length ticket) && leb_ℤ (pos 1) expires_in
    then ok (record { ticket = ticket; expires_in = expires_in })
    else err validation_error
