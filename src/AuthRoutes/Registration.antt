-- ===== src/AuthRoutes/Registration.antt =====
-- routers/auth.py: registration, also while others register.
use fastapi_task_api.Base.{ℕ, ◌≡◌, refl, false, none, some, ok, err, if◌then◌else◌, arith}
use fastapi_task_api.Base.Int.{ℤ, ◌==ℤ◌}
use fastapi_task_api.Accounts.{UserTable, PasswordHash, statement}
use fastapi_task_api.Accounts.Laws.{Laws}
use fastapi_task_api.AuthRoutes.{register_user, new_user, username_taken}
use fastapi_task_api.Models.{UserRecord}
use fastapi_task_api.UserModels.{UserCreate, user_response}

module _ (table : UserTable) (laws : Laws table) (passwords : PasswordHash) where
  open table use {State, fails, arrive}
  open laws use {row, named, next_id}

  -- While the database works: a username that the first statement finds, or that another client
  -- takes before the second, is answered with 409, and the registration leaves the rows as they are.
  pub register_conflict :
      (salt : ℕ) (c : UserCreate) (s : State) (u : UserRecord)
      → ((s : State) → fails s ≡ false)
      → (named (arrive s) c.username ≡ some u
          → register_user table passwords salt c s ≡ (err username_taken, arrive s))
        × (named (arrive s) c.username ≡ none
            → named (arrive (arrive s)) c.username ≡ some u
            → register_user table passwords salt c s ≡ (err username_taken, arrive (arrive s)))
  unfolding register_user statement
  register_conflict salt c s u works =
      let s₁ = arrive s in
      let s₂ = arrive s₁ in
      (
        (λ taken. ground (arith, taken, works s, laws.select_username_row c.username s₁)),
        λ free taken. ground (
          arith,
          free,
          taken,
          works s,
          works s₁,
          laws.select_username_row c.username s₁,
          laws.insert_taken (new_user passwords salt c) s₂ u taken,
        ),
      )

  -- While the database works and nobody else takes the username, a registration inserts an active
  -- user with a fresh id, the username and a hash of the password, changes no other row, and answers
  -- with the new one, if it is still there when it is read back.
  pub register_inserts :
      (salt : ℕ) (c : UserCreate) (s : State)
      → let s₂ = arrive (arrive s) in
        let u = new_user passwords salt c (next_id s₂) in
        let s₃ = (table.insert_user (new_user passwords salt c) s₂).1 in
        ((s : State) → fails s ≡ false)
        → named (arrive s) c.username ≡ none
        → named s₂ c.username ≡ none
        → row (arrive s₃) u.id ≡ some u
        → (register_user table passwords salt c s ≡ (ok (user_response u), arrive s₃))
          × (row s₂ u.id ≡ none)
          × ((j : ℤ) → row s₃ j ≡ (if u.id ==ℤ j then some u else row s₂ j))
  unfolding register_user statement
  register_inserts salt c s works free free' kept =
      let s₁ = arrive s in
      let s₂ = arrive s₁ in
      let draft = new_user passwords salt c in
      let s₃ = (table.insert_user draft s₂).1 in
      let i = next_id s₂ in
      (
        ground (
          arith,
          free,
          works s,
          works s₁,
          works s₃,
          kept,
          laws.select_username_row c.username s₁,
          laws.insert_reply draft s₂ free',
          laws.select_user_row i (arrive s₃),
        ),
        laws.next_id_free s₂,
        λ j. laws.insert_row draft s₂ j free' refl,
      )
