-- ===== src/AuthRoutes.antt =====
-- routers/auth.py. `read_current_user` is `user_response` of `get_current_user`'s row, and
-- `generate_websocket_ticket` gives the ticket as an argument, as the clock and the salt of a hash.
pub mod Sessions
pub mod Registration
use fastapi_task_api.Base.{
  ℕ, true, Option, none, some, Result, ok, err, Error, other_error, redis_error, http_exception,
  Exec, continue, pure, raise, ◌>>=◌, [], ◌∷◌,
}
use fastapi_task_api.Base.Int.{ℤ}
use fastapi_task_api.Base.Text.{Text, codes, str}
use fastapi_task_api.Accounts.{UserTable, PasswordHash, Jwt, statement}
use fastapi_task_api.Authentication.{authenticate_user}
use fastapi_task_api.Models.{UserRecord}
use fastapi_task_api.RateLimitDependencies.{Limiters, enforce_login_rate_limit}
use fastapi_task_api.Redis.{Redis}
use fastapi_task_api.RedisRateLimiting.{RedisFixedWindowRateLimiter}
use fastapi_task_api.Security.{TokenSettings, create_access_token}
use fastapi_task_api.UserModels.{
  UserCreate, UserResponse, user_response, TokenResponse, WebSocketTicketResponse, ticket_response,
}
use fastapi_task_api.WebsocketTickets.{WebSocketTicketStore, issue}

abbrev pub username_taken : Error
username_taken = http_exception 409 "Username already registered" []

abbrev pub incorrect_login : Error
incorrect_login =
    http_exception 401 "Incorrect username or password" (("WWW-Authenticate", codes "Bearer") ∷ [])

-- `UserRecord(username=…, hashed_password=hash_password(…), is_active=True)`
abbrev pub new_user : PasswordHash → ℕ → UserCreate → ℤ → UserRecord
new_user passwords salt user_create id = record {
  id = id;
  username = user_create.username;
  hashed_password = passwords.hash salt user_create.password;
  is_active = true;
}

module _ (table : UserTable) (passwords : PasswordHash) where
  open table use {State}

  -- `session.refresh(user_record)` and the response
  refreshed_user : Option UserRecord → Exec State UserResponse
  refreshed_user none = raise other_error
  refreshed_user (some user_record) = pure (user_response user_record)

  -- What follows the commit; `none` is `IntegrityError`.
  committed : Option UserRecord → Exec State UserResponse
  unfolding refreshed_user
  committed none = raise username_taken
  committed (some user_record) = do
    row ← statement table (λ s. (table.select_user user_record.id s, s))
    refreshed_user row

  -- What follows the first SELECT.
  register_unless : ℕ → UserCreate → Option UserRecord → Exec State UserResponse
  unfolding committed
  register_unless salt user_create (some existing_user) = raise username_taken
  register_unless salt user_create none = do
    user_record ← statement table (table.insert_user (new_user passwords salt user_create))
    committed user_record

  unfoldable pub register_user : ℕ → UserCreate → Exec State UserResponse
  unfolding register_unless
  register_user salt user_create = do
    existing_user ← statement table (λ s. (table.select_username user_create.username s, s))
    register_unless salt user_create existing_user

-- The response with the token, or what `jwt.encode` raises.
abbrev pub token_answer : Result Text → Result TokenResponse
token_answer (ok access_token) =
    ok (record { access_token = access_token; token_type = codes "bearer" })
token_answer (err e) = err e

module _ (table : UserTable) (passwords : PasswordHash) (jwt : Jwt) where
  open table use {State}

  -- `login_for_access_token` once the user is authenticated
  grant_token : ℕ → TokenSettings → Option UserRecord → Exec State TokenResponse
  grant_token now settings none s = (err incorrect_login, s)
  grant_token now settings (some user_record) s =
      (token_answer (create_access_token jwt now (str user_record.id) settings none), s)

  unfoldable pub login_for_access_token :
      ℕ → TokenSettings → (username password : Text) → Exec State TokenResponse
  unfolding grant_token
  login_for_access_token now settings username password = do
    user_record ← authenticate_user table passwords username password
    grant_token now settings user_record

-- `except RedisError` of `issue_websocket_ticket`, and the response
abbrev pub ticket_answer {ℓ} :
    {S : Type ℓ} → ℤ → Result Text × S → Result WebSocketTicketResponse × S
ticket_answer expires_in (ok ticket, s) = (ticket_response ticket expires_in, s)
ticket_answer expires_in (err redis_error, s) =
    (err (http_exception 503 "WebSocket ticket service unavailable" []), s)
ticket_answer expires_in (err e, s) = (err e, s)

module _ (redis : Redis) where
  -- `user_id` is `current_user.id`.
  unfoldable pub issue_websocket_ticket :
      WebSocketTicketStore
      → (expires_in user_id : ℤ) → Text
      → Exec redis.State WebSocketTicketResponse
  issue_websocket_ticket store expires_in user_id ticket s =
      ticket_answer expires_in (issue redis store user_id ticket s)

-- What a login request reads and writes: the limiters, and the table of users.
pub record LoginWorld (LimiterState UserState : Type 0) : Type 0 where
  pub limiters : Limiters LimiterState
  pub users : UserState

module _ (redis : Redis) (table : UserTable) (passwords : PasswordHash) (jwt : Jwt) where
  abbrev pub World : Type 0
  World = LoginWorld redis.State table.State

  after_limit :
      ℕ → TokenSettings → (username password : Text) → Result (Unit {0}) → Exec World TokenResponse
  after_limit now settings username password (err e) w = (err e, w)
  after_limit now settings username password (ok _) w =
      let (r, users) =
        login_for_access_token table passwords jwt now settings username password w.users in
      (r, record w { users = users })

  -- `POST /auth/token`: the dependency, at its clock reading, then the route.
  unfoldable pub post_token :
      RedisFixedWindowRateLimiter
      → (clock : ℕ) → Option Text
      → (now : ℕ) → TokenSettings
      → (username password : Text) → Exec World TokenResponse
  unfolding after_limit
  post_token rate_limiter clock client now settings username password w =
      let (decision, limiters) =
        enforce_login_rate_limit redis rate_limiter clock client w.limiters in
      after_limit now settings username password decision (record w { limiters = limiters })
