-- ===== src/Accounts/Laws.antt =====
-- The documented behaviour of the table of users, whose `id` is the primary key and whose `username`
-- is unique, of the password hashes, and of the tokens.
use fastapi_task_api.Base.{
  ℕ, ◌≤◌, ◌<◌, ◌≡◌, ◌||◌, Bool, true, ok, Option, none, some, if◌then◌else◌,
}
use fastapi_task_api.Base.Int.{ℤ, ◌==ℤ◌}
use fastapi_task_api.Base.Text.{Text, codes}
use fastapi_task_api.Base.Eq.{◌=?◌, text_eq}
use fastapi_task_api.Models.{UserRecord}
use fastapi_task_api.Accounts.{UserTable, PasswordHash, Jwt, Claims}

pub record Laws (table : UserTable) : Type 0 where
  -- the row of a primary key, and of a username
  pub row : table.State → ℤ → Option UserRecord
  pub named : table.State → Text → Option UserRecord
  pub select_user_row : (i : ℤ) (s : table.State) → table.select_user i s ≡ row s i
  pub select_username_row : (n : Text) (s : table.State) → table.select_username n s ≡ named s n
  pub named_row :
      (s : table.State) (n : Text) (u : UserRecord)
      → named s n ≡ some u
      → (row s u.id ≡ some u) × (u.username ≡ n)
  pub row_named :
      (s : table.State) (i : ℤ) (u : UserRecord)
      → row s i ≡ some u
      → (named s u.username ≡ some u) × (u.id ≡ i)
  -- the id that the database picks next
  pub next_id : table.State → ℤ
  pub next_id_free : (s : table.State) → row s (next_id s) ≡ none
  pub insert_taken :
      (draft : ℤ → UserRecord) (s : table.State) (u : UserRecord)
      → named s (draft (next_id s)).username ≡ some u
      → table.insert_user draft s ≡ (none, s)
  pub insert_reply :
      (draft : ℤ → UserRecord) (s : table.State)
      → named s (draft (next_id s)).username ≡ none
      → (table.insert_user draft s).0 ≡ some (draft (next_id s))
  pub insert_row :
      (draft : ℤ → UserRecord) (s : table.State) (j : ℤ)
      → named s (draft (next_id s)).username ≡ none
      → (draft (next_id s)).id ≡ next_id s
      → row (table.insert_user draft s).1 j
        ≡ (if next_id s ==ℤ j then some (draft (next_id s)) else row s j)

-- A password is verified by its own hash.
pub record HashLaws (passwords : PasswordHash) : Type 0 where
  pub verify-hash : (salt : ℕ) (p : Text) → passwords.verify p (passwords.hash salt p) ≡ true

-- The algorithms HMAC with SHA, whose key both signs and verifies.
abbrev pub is_hmac : Text → Bool
is_hmac algorithm =
    (algorithm =? codes "HS256") || ((algorithm =? codes "HS384") || (algorithm =? codes "HS512"))

-- A token that was signed by HMAC decodes by its key and algorithm, from its issue until it expires.
pub record TokenLaws (jwt : Jwt) : Type 0 where
  pub decode-encode :
      (now : ℕ) (c : Claims) (key algorithm token : Text)
      → is_hmac algorithm ≡ true
      → jwt.encode c key algorithm ≡ ok token
      → c.iat ≤ now
      → now < c.exp
      → jwt.decode now token key algorithm ≡ some (some c.sub)
  pub decode_expired :
      (now : ℕ) (c : Claims) (key algorithm token : Text)
      → is_hmac algorithm ≡ true
      → jwt.encode c key algorithm ≡ ok token
      → c.exp ≤ now
      → jwt.decode now token key algorithm ≡ none
