-- ===== src/Database/Laws.antt =====
-- The documented behaviour of the statements: `id` is the primary key of the table of tasks.
use fastapi_task_api.Base.{All, ◌≡◌, Option, none, some, if◌then◌else◌}
use fastapi_task_api.Base.Int.{ℤ, ◌==ℤ◌}
use fastapi_task_api.Models.{TaskRecord}
use fastapi_task_api.Database.{Database}

-- The row, if it is this owner's.
abbrev pub owned_by : ℤ → Option TaskRecord → Option TaskRecord
owned_by owner_id none = none
owned_by owner_id (some r) = if r.owner_id ==ℤ owner_id then some r else none

pub record Laws (database : Database) : Type 0 where
  -- the row of a primary key
  pub row : database.State → ℤ → Option TaskRecord
  pub row_id : (db : database.State) (i : ℤ) (r : TaskRecord) → row db i ≡ some r → r.id ≡ i
  pub select_row :
      (i o : ℤ) (db : database.State) → database.select_task i o db ≡ owned_by o (row db i)
  pub select_key_row : (i : ℤ) (db : database.State) → database.select_key i db ≡ row db i
  pub select_owned_owner :
      (o : ℤ) (db : database.State) → All (λ r. r.owner_id ≡ o) (database.select_owned o db)
  -- the id that the database picks next
  pub next_id : database.State → ℤ
  pub next_id_free : (db : database.State) → row db (next_id db) ≡ none
  pub insert_reply :
      (draft : ℤ → TaskRecord) (db : database.State)
      → (database.insert_task draft db).0 ≡ draft (next_id db)
  pub insert_row :
      (draft : ℤ → TaskRecord) (db : database.State) (j : ℤ)
      → (draft (next_id db)).id ≡ next_id db
      → row (database.insert_task draft db).1 j
        ≡ (if next_id db ==ℤ j then some (draft (next_id db)) else row db j)
  pub update_row :
      (r : TaskRecord) (db : database.State) (j : ℤ)
      → row (database.update_task r db).1 j ≡ (if r.id ==ℤ j then some r else row db j)
  pub delete_row :
      (i : ℤ) (db : database.State) (j : ℤ)
      → row (database.delete_task i db).1 j ≡ (if i ==ℤ j then none else row db j)
