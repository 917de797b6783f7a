-- ===== src/Authentication.antt =====
-- authentication.py and passwords.py.
pub mod Users
use fastapi_task_api.Base.{
  ℕ, Bool, Option, none, some, Result, ok, err, Error, value_error, invalid_token_error,
  invalid_credentials_error, http_exception, Exec, continue, pure, raise, ◌>>=◌, [], ◌∷◌, not,
  if◌then◌else◌,
}
use fastapi_task_api.Base.Int.{ℤ}
use fastapi_task_api.Base.Text.{Text, codes, int}
use fastapi_task_api.Accounts.{UserTable, PasswordHash, Jwt, statement}
use fastapi_task_api.Models.{UserRecord}
use fastapi_task_api.Security.{TokenSettings, decode_access_token}

-- `create_credentials_exception`
abbrev pub credentials_exception : Error
credentials_exception =
    http_exception 401 "Could not validate credentials" (("WWW-Authenticate", codes "Bearer") ∷ [])

-- `authenticate_user` once the row is read. The hash that it verifies for a missing user, so that
-- both cases take as long, has no effect.
abbrev pub admit : PasswordHash → Text → Option UserRecord → Option UserRecord
admit passwords plain_password none = none
admit passwords plain_password (some user_record) =
    if not (passwords.verify plain_password user_record.hashed_password)
    then none
    else if not user_record.is_active
    then none
    else some user_record

-- `int(subject)`
abbrev pub to_user_id : Option ℤ → Result ℤ
to_user_id none = err (value_error "invalid literal for int()")
to_user_id (some user_id) = ok user_id

abbrev pub read_user_id : Result Text → Result ℤ
read_user_id (ok subject) = to_user_id (int subject)
read_user_id (err e) = err e

-- `except (InvalidTokenError, ValueError)`
abbrev pub to_credentials_error : Result ℤ → Result ℤ
to_credentials_error (ok user_id) = ok user_id
to_credentials_error (err invalid_token_error) = err invalid_credentials_error
to_credentials_error (err (value_error message)) = err invalid_credentials_error
to_credentials_error (err e) = err e

-- `except InvalidCredentialsError` of `get_current_user`
abbrev pub to_unauthorized {ℓ} : {S : Type ℓ} → Result UserRecord × S → Result UserRecord × S
to_unauthorized (err invalid_credentials_error, s) = (err credentials_exception, s)
to_unauthorized (r, s) = (r, s)

module _ (table : UserTable) (passwords : PasswordHash) where
  open table use {State}

  unfoldable pub authenticate_user :
      (username plain_password : Text) → Exec State (Option UserRecord)
  authenticate_user username plain_password = do
    user_record ← statement table (λ s. (table.select_username username s, s))
    pure (admit passwords plain_password user_record)

module _ (table : UserTable) (jwt : Jwt) where
  open table use {State}

  active_user : Option UserRecord → Exec State UserRecord
  active_user none = raise invalid_credentials_error
  active_user (some user_record) =
      if not user_record.is_active then raise invalid_credentials_error else pure user_record

  -- `resolve_user_from_token` for the user id of the token
  resolve_user : Result ℤ → Exec State UserRecord
  unfolding active_user
  resolve_user (err e) = raise e
  resolve_user (ok user_id) = do
    user_record ← statement table (λ s. (table.select_user user_id s, s))
    active_user user_record

  unfoldable pub resolve_user_from_token : ℕ → Text → TokenSettings → Exec State UserRecord
  unfolding resolve_user
  resolve_user_from_token now token settings =
      resolve_user
        (to_credentials_error (read_user_id (decode_access_token jwt now token settings)))

  unfoldable pub get_current_user : ℕ → Text → TokenSettings → Exec State UserRecord
  unfolding resolve_user_from_token
  get_current_user now token settings s =
      to_unauthorized (resolve_user_from_token now token settings s)
