-- ===== src/Authentication/Users.antt =====
-- authentication.py: whom a password and a token admit.
use fastapi_task_api.Base.{
  ℕ, ◌≡◌, ◌↔◌, ◌⊎◌, inl, inr, refl, true, false, Option, none, some, Result, ok, err,
  invalid_token_error, [], ◌∷◌, arith, Option-cases, Bool-cases,
}
use fastapi_task_api.Base.Int.{ℤ}
use fastapi_task_api.Base.Text.{Text, int}
use fastapi_task_api.Accounts.{UserTable, PasswordHash, Jwt, statement}
use fastapi_task_api.Accounts.Laws.{Laws}
use fastapi_task_api.Authentication.{authenticate_user, credentials_exception, get_current_user}
use fastapi_task_api.Models.{UserRecord}
use fastapi_task_api.Security.{TokenSettings, decode_access_token, read_subject}

subject-cases :
    (o : Option (Option Text))
    → ((t : Text) × (read_subject o ≡ ok t)) ⊎ (read_subject o ≡ err invalid_token_error)
subject-cases none = inr refl
subject-cases (some none) = inr refl
subject-cases (some (some [])) = inr refl
subject-cases (some (some (c ∷ t))) = inl (c ∷ t, refl)

decode-cases :
    (jwt : Jwt) (now : ℕ) (token : Text) (settings : TokenSettings)
    → ((t : Text) × (decode_access_token jwt now token settings ≡ ok t))
      ⊎ (decode_access_token jwt now token settings ≡ err invalid_token_error)
unfolding decode_access_token
decode-cases jwt now token settings = subject-cases _

module _ (table : UserTable) (laws : Laws table) where
  open table use {State, fails, arrive}
  open laws use {row, named}

  -- While the database works, a login admits exactly the user of the given username, if the password
  -- is verified by the user's hash and the user is active.
  pub authenticate_iff :
      (passwords : PasswordHash) (n p : Text) (s : State) (u : UserRecord)
      → fails s ≡ false
      → ((authenticate_user table passwords n p s).0 ≡ ok (some u)) ↔ (
          (named (arrive s) n ≡ some u)
          × (passwords.verify p u.hashed_password ≡ true)
          × (u.is_active ≡ true))
  unfolding authenticate_user statement
  authenticate_iff passwords n p s u works = (
    (λ h. ground (arith, laws.select_username_row n (arrive s), h)),
    λ h. ground (arith, laws.select_username_row n (arrive s), h),
  )

  -- The token decodes to the id of an active user that the table has.
  abbrev pub IsTokenOf : Jwt → ℕ → Text → TokenSettings → State → UserRecord → Type 0
  IsTokenOf jwt now token settings s u =
      (subject : Text) × (decode_access_token jwt now token settings ≡ ok subject)
      × (int subject ≡ some u.id)
      × (row (arrive s) u.id ≡ some u)
      × (u.is_active ≡ true)

  abbrev Answer : Jwt → ℕ → Text → TokenSettings → State → Result UserRecord → Type 0
  Answer jwt now token settings s r =
      ((u : UserRecord) × IsTokenOf jwt now token settings s u × (r ≡ ok u))
      ⊎ ((r ≡ err credentials_exception)
          × ((u : UserRecord) → IsTokenOf jwt now token settings s u → ⊥))

  by_id :
      (jwt : Jwt) (now : ℕ) (token : Text) (settings : TokenSettings) (s : State) (subject : Text)
      (i : ℤ)
      → fails s ≡ false
      → decode_access_token jwt now token settings ≡ ok subject
      → int subject ≡ some i
      → Answer jwt now token settings s (get_current_user table jwt now token settings s).0
  unfolding get_current_user statement
  by_id jwt now token settings s subject i works decoded read =
      elim (Option-cases (row (arrive s) i)) [
        | inl absent ↦ inr (
          ground (arith, decoded, read, absent, laws.select_user_row i (arrive s)),
          λ u (other, decoded', read', found, active).
              ground (arith, decoded, decoded', read, read', absent, found),
        )
        | inr (u, found) ↦
            let same = (laws.row_named (arrive s) i u found).1 in
            elim (Bool-cases u.is_active) [
              | inl active ↦ inl (
                u,
                (subject, decoded, ground (arith, read, same), ground (arith, found, same), active),
                ground (arith, decoded, read, found, active, laws.select_user_row i (arrive s)),
              )
              | inr inactive ↦ inr (
                ground (arith, decoded, read, found, inactive, laws.select_user_row i (arrive s)),
                λ u' (other, decoded', read', found', active).
                    ground (arith, decoded, decoded', read, read', found, found', inactive, active),
              )
            ]
      ]

  -- While the database works, a request with a token is that of the active user whose id the token
  -- decodes to, or ends in a 401 if there is no such user.
  pub current_user :
      (jwt : Jwt) (now : ℕ) (token : Text) (settings : TokenSettings) (s : State)
      → fails s ≡ false
      → let r = (get_current_user table jwt now token settings s).0 in
        ((u : UserRecord) × IsTokenOf jwt now token settings s u × (r ≡ ok u))
        ⊎ ((r ≡ err credentials_exception)
            × ((u : UserRecord) → IsTokenOf jwt now token settings s u → ⊥))
  unfolding get_current_user statement
  current_user jwt now token settings s works = elim (decode-cases jwt now token settings) [
    | inl (subject, decoded) ↦ elim (Option-cases (int subject)) [
      | inl unread ↦ inr (
        ground (arith, decoded, unread),
        λ u (other, decoded', read', found, active).
            ground (arith, decoded, decoded', unread, read'),
      )
      | inr (i, read) ↦ by_id jwt now token settings s subject i works decoded read
    ]
    | inr refused ↦ inr (
      ground (arith, refused),
      λ u (other, decoded', read', found, active). ground (arith, refused, decoded'),
    )
  ]
