-- ===== src/Accounts.antt =====
-- What the program calls to keep its users, and does not implement: the table of users behind
-- SQLAlchemy, the password hashes of pwdlib, and the tokens of PyJWT. Their operations are
-- parameters, and what the program relies on is stated as laws.
pub mod Laws
pub mod Memory
pub mod Credentials
use fastapi_task_api.Base.{ℕ, Bool, Option, Result, Exec, ok, err, database_error, if◌then◌else◌}
use fastapi_task_api.Base.Int.{ℤ}
use fastapi_task_api.Base.Text.{Text}
use fastapi_task_api.Models.{UserRecord}

pub record UserTable : Type 1 where
  pub State : Type 0
  -- the next statement fails, for another reason than a taken username
  pub fails : State → Bool
  -- what other clients do before the next statement
  pub arrive : State → State
  -- SELECT … FROM users WHERE username = …
  pub select_username : Text → State → Option UserRecord
  -- SELECT … FROM users WHERE id = …
  pub select_user : ℤ → State → Option UserRecord
  -- INSERT of a row, given but for its id, which the database picks; `none` is `IntegrityError`
  pub insert_user : (ℤ → UserRecord) → State → Option UserRecord × State

module _ (table : UserTable) where
  open table use {State, fails, arrive}

  unfoldable pub statement : {A : Type 0} → (State → A × State) → Exec State A
  statement command s =
      let (a, s') = command (arrive s) in
      if fails s then (err database_error, arrive s) else (ok a, s')

-- `PasswordHash.hash`, by the random salt, and `PasswordHash.verify`.
pub record PasswordHash : Type 0 where
  pub hash : ℕ → Text → Text
  pub verify : Text → Text → Bool

-- The payload that is encoded; times in seconds, to which PyJWT truncates them.
pub record Claims : Type 0 where
  pub sub : Text
  pub iat : ℕ
  pub exp : ℕ

-- `jwt.encode` of claims with a key and an algorithm, which raises for an algorithm that it does not
-- support and for a key that does not fit the algorithm, and `jwt.decode` at a time, which requires the
-- three claims: the subject, `none` if it is no text, or `none`, an `InvalidTokenError`.
pub record Jwt : Type 0 where
  pub encode : Claims → Text → Text → Result Text
  pub decode : ℕ → Text → Text → Text → Option (Option Text)
