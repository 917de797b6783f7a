-- ===== src/AuthRoutes/Sessions.antt =====
-- routers/auth.py, authentication.py, security.py: from a registration to a request with a token.
use fastapi_task_api.Base.{
  String, List, ℕ, ◌+◌, ◌*◌, ◌≤◌, ◌<◌, ◌≡◌, ◌≢◌, ◌⊎◌, refl, ◌∙◌, false, true, Option, none, some,
  ok, err, Error, Result, http_exception, [], ◌∷◌, if◌then◌else◌, arith, ap,
}
use fastapi_task_api.Base.Int.{ℤ, ==ℤ_iff}
use fastapi_task_api.Base.Text.{Text, codes, str, int-str, str-ne-nil}
use fastapi_task_api.Accounts.{UserTable, PasswordHash, Jwt, Claims, statement}
use fastapi_task_api.Accounts.Laws.{Laws, HashLaws, TokenLaws, is_hmac}
use fastapi_task_api.Authentication.{authenticate_user, get_current_user, credentials_exception}
use fastapi_task_api.AuthRoutes.{
  register_user, new_user, login_for_access_token, incorrect_login, token_answer, post_token,
  LoginWorld,
}
use fastapi_task_api.AuthRoutes.Registration.{register_inserts}
use fastapi_task_api.Models.{UserRecord}
use fastapi_task_api.RateLimitDependencies.{enforce_login_rate_limit}
use fastapi_task_api.RateLimitDependencies.Enforcement.{enforcement}
use fastapi_task_api.Redis.{Redis}
use fastapi_task_api.RedisRateLimiting.{RedisFixedWindowRateLimiter}
use fastapi_task_api.Security.{
  TokenSettings, create_access_token, decode_access_token, read_subject,
}
use fastapi_task_api.UserModels.{UserCreate, user_response, TokenResponse}

subject_lem : (t : Text) → t ≢ [] → read_subject (some (some t)) ≡ ok t
subject_lem [] h = absurd (h refl)
subject_lem (c ∷ t) h = refl

-- The table works, and a user stays as it is: the program neither changes nor deletes users.
pub record IsKept (table : UserTable) (laws : Laws table) : Type 0 where
  pub works : (s : table.State) → table.fails s ≡ false
  pub keeps :
      (s : table.State) (i : ℤ) (u : UserRecord)
      → laws.row s i ≡ some u
      → laws.row (table.arrive s) i ≡ some u

module _ (table : UserTable) (laws : Laws table) (jwt : Jwt) (tokens : TokenLaws jwt)
    (settings : TokenSettings) where
  open table use {State, fails, arrive}
  open laws use {row, named, next_id}

  abbrev minutes : ℕ
  minutes = settings.access_token_expire_minutes

  -- The settings sign by HMAC, and the token is what `create_access_token` returns for the user id.
  IsSigned : ℕ → ℤ → Text → Type 0
  IsSigned issued z token =
      (is_hmac settings.jwt_algorithm ≡ true)
      × (create_access_token jwt issued (str z) settings none ≡ ok token)

  token_valid :
      (issued now : ℕ) (z : ℤ) (token : Text)
      → IsSigned issued z token
      → issued ≤ now
      → now < issued + minutes * 60
      → decode_access_token jwt now token settings ≡ ok (str z)
  unfolding create_access_token decode_access_token IsSigned
  token_valid issued now z token (hmac, signed) later lives =
      let c : Claims = record { sub = str z; iat = issued; exp = issued + minutes * 60 } in
      rw
        (tokens.decode-encode now c settings.jwt_secret_key settings.jwt_algorithm token hmac signed
          later lives)
        (subject_lem (str z) (str-ne-nil z))

  token_late :
      (issued now : ℕ) (z : ℤ) (token : Text)
      → IsSigned issued z token
      → issued + minutes * 60 ≤ now
      → (s : State)
      → (get_current_user table jwt now token settings s).0 ≡ err credentials_exception
  unfolding create_access_token decode_access_token get_current_user IsSigned
  token_late issued now z token (hmac, signed) late s =
      let c : Claims = record { sub = str z; iat = issued; exp = issued + minutes * 60 } in
      ground (
        arith,
        tokens.decode_expired now c settings.jwt_secret_key settings.jwt_algorithm token hmac signed
            late,
      )

  token_admits :
      (issued now : ℕ) (u : UserRecord) (token : Text) (s : State)
      → IsSigned issued u.id token
      → issued ≤ now
      → now < issued + minutes * 60
      → fails s ≡ false
      → row (arrive s) u.id ≡ some u
      → u.is_active ≡ true
      → (get_current_user table jwt now token settings s).0 ≡ ok u
  unfolding get_current_user statement
  token_admits issued now u token s signed later lives works found active = ground (
    arith,
    token_valid issued now u.id token signed later lives,
    int-str u.id,
    works,
    found,
    active,
    laws.select_user_row u.id (arrive s),
  )

  -- What a login gives.
  abbrev pub login_answer : ℕ → UserRecord → Result TokenResponse
  login_answer issued u = token_answer (create_access_token jwt issued (str u.id) settings none)

  module _ (passwords : PasswordHash) (hashes : HashLaws passwords) where
    login_lem :
        (issued : ℕ) (p : Text) (u : UserRecord) (s : State)
        → fails s ≡ false
        → row (arrive s) u.id ≡ some u
        → u.is_active ≡ true
        → login_for_access_token table passwords jwt issued settings u.username p s ≡ (
          if passwords.verify p u.hashed_password
              then login_answer issued u
              else err incorrect_login,
          arrive s,
        )
    unfolding login_for_access_token authenticate_user statement
    login_lem issued p u s works found active =
        let known = (laws.row_named (arrive s) u.id u found).0 in
        ground (arith, known, works, active, laws.select_username_row u.username (arrive s))

    -- A registration whose username nobody has, while the database works and keeps its users, is
    -- answered with the new user. From then on a login with the password, at `issued`, gives the token
    -- that `create_access_token` returns, or ends in the exception that it raises, for an algorithm or
    -- a key that PyJWT does not take; and a login with a password that the hash does not verify ends
    -- in a 401. Where the settings name an algorithm of HMAC, a request with the token, no earlier than
    -- its issue, is the user's until `access_token_expire_minutes` have passed, and ends in a 401
    -- afterwards.
    pub register_login :
        (salt : ℕ) (c : UserCreate) (s : State) (issued now : ℕ) (wrong : Text)
        → let u = new_user passwords salt c (next_id (arrive (arrive s))) in
          let registered = register_user table passwords salt c s in
          let logged_in =
            login_for_access_token table passwords jwt issued settings c.username c.password
              registered.1 in
          let refused =
            login_for_access_token table passwords jwt issued settings c.username wrong
              registered.1 in
          let created = create_access_token jwt issued (str u.id) settings none in
          let current =
            λ (token : Text). (get_current_user table jwt now token settings logged_in.1).0 in
          IsKept table laws
          → named (arrive s) c.username ≡ none
          → named (arrive (arrive s)) c.username ≡ none
          → issued ≤ now
          → (registered.0 ≡ ok (user_response u))
            × ((token : Text)
                → created ≡ ok token
                → logged_in.0 ≡ ok (record { access_token = token; token_type = codes "bearer" }))
            × ((e : Error) → created ≡ err e → logged_in.0 ≡ err e)
            × (passwords.verify wrong u.hashed_password ≡ false → refused.0 ≡ err incorrect_login)
            × ((token : Text)
                → is_hmac settings.jwt_algorithm ≡ true
                → created ≡ ok token
                → (now < issued + settings.access_token_expire_minutes * 60 → current token ≡ ok u)
                  × (issued + settings.access_token_expire_minutes * 60 ≤ now
                      → current token ≡ err credentials_exception))
    unfolding IsSigned
    register_login salt c s issued now wrong kept free free' later =
        let s₂ = arrive (arrive s) in
        let u = new_user passwords salt c (next_id s₂) in
        let s₃ = (table.insert_user (new_user passwords salt c) s₂).1 in
        let inserted : row s₃ u.id ≡ some u = ground (
          arith,
          laws.insert_row (new_user passwords salt c) s₂ u.id free' refl,
          ==ℤ_iff u.id u.id,
        ) in
        let s₄ = arrive s₃ in
        let k₄ = kept.keeps s₃ u.id u inserted in
        let k₅ = kept.keeps s₄ u.id u k₄ in
        let k₆ = kept.keeps (arrive s₄) u.id u k₅ in
        let run = (register_inserts table laws passwords salt c s kept.works free free' k₄).0 in
        let login = login_lem issued c.password u s₄ (kept.works s₄) k₅ refl in
        let refusal = login_lem issued wrong u s₄ (kept.works s₄) k₅ refl in
        let after : login_for_access_token table passwords jwt issued settings c.username c.password
              s₄
            ≡ (login_answer issued u, arrive s₄) =
          login ∙ rw (hashes.verify-hash salt c.password) refl in
        rw run (
          refl,
          (λ token created. ap (λ r. r.0) after ∙ ap token_answer created),
          (λ e raised. ap (λ r. r.0) after ∙ ap token_answer raised),
          (λ unverified. ap (λ r. r.0) refusal ∙ rw unverified refl),
          λ token hmac created. (
            (λ lives. rw after (
                token_admits issued now u token (arrive s₄) (hmac, created) later lives
                  (kept.works (arrive s₄)) k₆ refl)),
            λ late. token_late issued now u.id token (hmac, created) late _,
          ),
        )

module _ (redis : Redis) (table : UserTable) (passwords : PasswordHash) (jwt : Jwt) where
  -- Whatever Redis does, the limiter lets an attempt pass or refuses it with a 429. An attempt that it
  -- refuses ends in this 429 and does not touch the table of users; one that it lets pass is answered
  -- by the login.
  pub login_guarded :
      (rate_limiter : RedisFixedWindowRateLimiter) (clock : ℕ) (client : Option Text) (now : ℕ)
      (settings : TokenSettings) (username password : Text) (w : LoginWorld redis.State table.State)
      → let checked = enforce_login_rate_limit redis rate_limiter clock client w.limiters in
        let logged_in =
          login_for_access_token table passwords jwt now settings username password w.users in
        let (answer, w') =
          post_token redis table passwords jwt rate_limiter clock client now settings username
            password w in
        (w'.limiters ≡ checked.1)
        × (((checked.0 ≡ ok tt) × (answer ≡ logged_in.0) × (w'.users ≡ logged_in.1))
            ⊎ ((detail : String) × (headers : List (String × Text)) × (checked.0
                  ≡ err (http_exception 429 detail headers))
                × (answer ≡ err (http_exception 429 detail headers))
                × (w'.users ≡ w.users)))
  unfolding post_token
  login_guarded rate_limiter clock client now settings username password w =
      ground (arith, (enforcement redis rate_limiter clock client w.limiters).0)
