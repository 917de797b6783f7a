-- ===== src/Tests/Accounts.antt =====
-- authentication.py, routers/auth.py, websocket_authentication.py on concrete users.
use fastapi_task_api.Base.{
  String, ◌+◌, ◌*◌, ◌≤◌, ◌<◌, ◌≡◌, ◌≢◌, ◌↔◌, ◌⊎◌, refl, true, false, none, some, Result, ok, err,
  Error, http_exception, List, [], ◌∷◌, arith,
}
use fastapi_task_api.Base.Int.{ℤ, pos}
use fastapi_task_api.Base.Text.{Text, codes, str}
use fastapi_task_api.Base.Eq.{text_eq, int_eq}
use fastapi_task_api.Base.Dict.{lookup}
use fastapi_task_api.Accounts.{UserTable, statement}
use fastapi_task_api.Accounts.Laws.{is_hmac}
use fastapi_task_api.Accounts.Memory
use fastapi_task_api.Accounts.Credentials.{plain, plain_laws, sign, clear, clear_laws}
use fastapi_task_api.Accounts.Memory.{users, users_laws, Entry}
use fastapi_task_api.Authentication.{authenticate_user, get_current_user, credentials_exception}
use fastapi_task_api.Authentication.Users.{authenticate_iff, current_user, IsTokenOf}
use fastapi_task_api.AuthRoutes.{
  register_user, new_user, username_taken, incorrect_login, login_for_access_token, post_token,
  LoginWorld, issue_websocket_ticket,
}
use fastapi_task_api.AuthRoutes.Registration.{register_conflict}
use fastapi_task_api.AuthRoutes.Sessions.{register_login, login_guarded, IsKept}
use fastapi_task_api.Models.{UserRecord}
use fastapi_task_api.Security.{TokenSettings, create_access_token}
use fastapi_task_api.RateLimitDependencies.{enforce_login_rate_limit}
use fastapi_task_api.Redis.{call}
use fastapi_task_api.Redis.Server
use fastapi_task_api.Redis.Server.{quiet, quiet_laws}
use fastapi_task_api.RedisRateLimiting.{RedisFixedWindowRateLimiter}
use fastapi_task_api.UserModels.{
  UserCreate, user_response, WebSocketTicketResponse, ticket_response,
}
use fastapi_task_api.WebsocketAuthentication.{consume_websocket_ticket, get_websocket_current_user}
use fastapi_task_api.WebsocketAuthentication.Admission.{ticket_admits}
use fastapi_task_api.WebsocketTickets.{WebSocketTicketStore, issue, build_key}

abbrev table : UserTable
table = users (λ m. m)

-- The user 1, whose password is "correct horse", and the user 2, who is inactive.
abbrev alice : UserRecord
alice = record {
  id = pos 1;
  username = codes "alice";
  hashed_password = 0 ∷ codes "correct horse";
  is_active = true;
}

abbrev two : Memory.Memory
two = record {
  entries =
      (
        pos 1,
        record {
          username = codes "alice";
          hashed_password = 0 ∷ codes "correct horse";
          is_active = true;
        },
      )
      ∷ (
        pos 2,
        record {
          username = codes "bob";
          hashed_password = 7 ∷ codes "hunter22";
          is_active = false;
        },
      )
      ∷ [];
  ids = (codes "alice", pos 1) ∷ (codes "bob", pos 2) ∷ [];
}

authenticate_iff_example :
    ((authenticate_user table plain (codes "alice") (codes "correct horse") two).0
      ≡ ok (some alice))
    ↔ (((users_laws (λ m. m)).named two (codes "alice") ≡ some alice)
        × (plain.verify (codes "correct horse") alice.hashed_password ≡ true)
        × (alice.is_active ≡ true))
authenticate_iff_example =
    authenticate_iff table (users_laws (λ m. m)) plain (codes "alice") (codes "correct horse") two
      alice refl

-- She is admitted.
admitted :
    (authenticate_user table plain (codes "alice") (codes "correct horse") two).0 ≡ ok (some alice)
unfolding authenticate_user statement lookup
admitted = refl

abbrev half_hour : TokenSettings
half_hour = record {
  jwt_secret_key = codes "key";
  jwt_algorithm = codes "HS256";
  access_token_expire_minutes = 30;
}

-- Alice's token of the second 100.
abbrev token : Text
token =
    sign (record { sub = codes "1"; iat = 100; exp = 1900 }) half_hour.jwt_secret_key
      half_hour.jwt_algorithm

token_lem : create_access_token clear 100 (codes "1") half_hour none ≡ ok token
unfolding create_access_token
token_lem = refl

current_user_example :
    let r = (get_current_user table clear 200 token half_hour two).0 in
    ((u : UserRecord) × IsTokenOf table (users_laws (λ m. m)) clear 200 token half_hour two u
      × (r ≡ ok u))
    ⊎ ((r ≡ err credentials_exception)
        × ((u : UserRecord)
            → IsTokenOf table (users_laws (λ m. m)) clear 200 token half_hour two u
            → ⊥))
current_user_example = current_user table (users_laws (λ m. m)) clear 200 token half_hour two refl

abbrev carol : UserCreate
carol = record { username = codes "carol"; password = codes "battery staple" }

register_conflict_example :
    let again : UserCreate = record {
      username = codes "alice";
      password = codes "battery staple";
    } in
    ((users_laws (λ m. m)).named two (codes "alice") ≡ some alice
      → register_user table plain 5 again two ≡ (err username_taken, two))
    × ((users_laws (λ m. m)).named two (codes "alice") ≡ none
        → (users_laws (λ m. m)).named two (codes "alice") ≡ some alice
        → register_user table plain 5 again two ≡ (err username_taken, two))
register_conflict_example =
    register_conflict table (users_laws (λ m. m)) plain 5
      (record { username = codes "alice"; password = codes "battery staple" }) two alice (λ s. refl)

stays : IsKept table (users_laws (λ m. m))
stays = record { works = λ s. refl; keeps = λ s i u found. found }

carol_free : (users_laws (λ m. m)).named two (codes "carol") ≡ none
unfolding lookup
carol_free = refl

-- Carol's hash has the salt 5, and her id is 3.
register_login_example :
    let u = new_user plain 5 carol ((users_laws (λ m. m)).next_id two) in
    let registered = register_user table plain 5 carol two in
    let logged_in =
      login_for_access_token table plain clear 100 half_hour carol.username carol.password
        registered.1 in
    let refused =
      login_for_access_token table plain clear 100 half_hour carol.username
        (codes "staple")
        registered.1 in
    let created = create_access_token clear 100 (str u.id) half_hour none in
    let current =
      λ (token : Text). (get_current_user table clear 200 token half_hour logged_in.1).0 in
    (registered.0 ≡ ok (user_response u))
    × ((token : Text)
        → created ≡ ok token
        → logged_in.0 ≡ ok (record { access_token = token; token_type = codes "bearer" }))
    × ((e : Error) → created ≡ err e → logged_in.0 ≡ err e)
    × (plain.verify (codes "staple") u.hashed_password ≡ false → refused.0 ≡ err incorrect_login)
    × ((token : Text)
        → is_hmac half_hour.jwt_algorithm ≡ true
        → created ≡ ok token
        → (200 < 100 + 30 * 60 → current token ≡ ok u)
          × (100 + 30 * 60 ≤ 200 → current token ≡ err credentials_exception))
register_login_example =
    register_login table (users_laws (λ m. m)) clear clear_laws half_hour plain plain_laws 5 carol
      two 100 200 (codes "staple") stays carol_free carol_free (omega arith)

-- Two login attempts in 10 seconds, with Redis at hand.
abbrev two_attempts : RedisFixedWindowRateLimiter
two_attempts = record {
  request_limit = 2;
  window_seconds = 10;
  key_prefix = codes "rate_limit:login";
}

abbrev attempt : LoginWorld Server.Memory Memory.Memory
attempt = record {
  limiters = record {
    redis_state = Server.empty;
    fallback = record { request_limit = 2; window_seconds = 10; windows = [] };
  };
  users = two;
}

login_guarded_example :
    let checked = enforce_login_rate_limit quiet two_attempts 0 none attempt.limiters in
    let logged_in =
      login_for_access_token table plain clear 100 half_hour
        (codes "alice")
        (codes "correct horse")
        two in
    let (answer, w') =
      post_token quiet table plain clear two_attempts 0 none 100 half_hour
        (codes "alice")
        (codes "correct horse")
        attempt in
    (w'.limiters ≡ checked.1)
    × (((checked.0 ≡ ok tt) × (answer ≡ logged_in.0) × (w'.users ≡ logged_in.1))
        ⊎ ((detail : String) × (headers : List (String × Text)) × (checked.0
              ≡ err (http_exception 429 detail headers))
            × (answer ≡ err (http_exception 429 detail headers))
            × (w'.users ≡ two)))
login_guarded_example =
    login_guarded quiet table plain clear two_attempts 0 none 100 half_hour (codes "alice")
      (codes "correct horse") attempt

abbrev store : WebSocketTicketStore
store = record { ttl_seconds = 30 }

abbrev asked : Result WebSocketTicketResponse × Server.Memory
asked = issue_websocket_ticket quiet store (pos 30) (pos 1) (codes "t1") Server.empty

abbrev opened : Result ℤ × Server.Memory
opened = consume_websocket_ticket quiet (codes "t1") asked.1

asked_lem : asked.0 ≡ ok (record { ticket = codes "t1"; expires_in = pos 30 })
unfolding issue_websocket_ticket issue call ticket_response lookup build_key
asked_lem = refl

alice_there : (users_laws (λ m. m)).row two (pos 1) ≡ some alice
unfolding lookup
alice_there = refl

ticket_admits_example :
    (◌≡◌ {A = WebSocketTicketResponse}
      (record { ticket = codes "t1"; expires_in = pos 30 })
      (record { ticket = codes "t1"; expires_in = pos 30 }))
    × (opened.0 ≡ ok (pos 1))
    × ((get_websocket_current_user table (pos 1) two).0 ≡ ok alice)
    × ((other : ℤ) → (consume_websocket_ticket quiet (codes "t1") opened.1).0 ≢ ok other)
ticket_admits_example =
    ticket_admits quiet quiet_laws store table (users_laws (λ m. m)) (pos 30) alice 116 (49 ∷ [])
      (record { ticket = codes "t1"; expires_in = pos 30 }) Server.empty two asked_lem refl refl
      (λ gone. gone) refl alice_there refl
