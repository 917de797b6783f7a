-- ===== src/TaskRoutes/Answers.antt =====
-- database_models.py: the answers that a database of tasks gives, before and after a statement.
use fastapi_task_api.Base.{◌≡◌, Option, some, arith}
use fastapi_task_api.Base.Int.{ℤ, ==ℤ_iff}
use fastapi_task_api.Base.Eq.{text_eq}
use fastapi_task_api.Models.{TaskRecord, TaskResponse}
use fastapi_task_api.Database
use fastapi_task_api.Database.{Database, execute}
use fastapi_task_api.Database.Laws.{owned_by}
use fastapi_task_api.TaskCacheDependencies.Load.{answer_of}

pub owned_lem : (o : ℤ) (r : TaskRecord) → r.owner_id ≡ o → owned_by o (some r) ≡ some r
owned_lem o r e = ground (arith, ==ℤ_iff r.owner_id o)

module _ (database : Database) (tables : Database.Laws.Laws database) where
  open database use {State}

  -- The answer of a database for an owner and a task id.
  abbrev pub answers_at : State → ℤ → ℤ → Option TaskResponse
  answers_at db o i = answer_of (owned_by o (tables.row db i))

  pub update_elsewhere :
      (r r' : TaskRecord) (o i : ℤ) (db : State)
      → tables.row db i ≡ some r
      → (r.owner_id ≡ o) × (r'.owner_id ≡ o) × (r'.id ≡ i)
      → (o' i' : ℤ) → ((o' ≡ o) × (i' ≡ i) → ⊥)
      → answers_at (database.update_task r' db).1 o' i' ≡ answers_at db o' i'
  update_elsewhere r r' o i db h (eo, eo', ei) o' i' other =
      ground (arith, tables.update_row r' db i', ==ℤ_iff r'.id i', ==ℤ_iff o o', h, other)

  pub delete_elsewhere :
      (r : TaskRecord) (o i : ℤ) (db : State)
      → tables.row db i ≡ some r
      → r.owner_id ≡ o
      → (o' i' : ℤ) → ((o' ≡ o) × (i' ≡ i) → ⊥)
      → answers_at (database.delete_task i db).1 o' i' ≡ answers_at db o' i'
  delete_elsewhere r o i db h eo o' i' other =
      ground (arith, tables.delete_row i db i', ==ℤ_iff i i', ==ℤ_iff o o', h, other)

  pub insert_elsewhere :
      (draft : ℤ → TaskRecord) (o : ℤ) (db : State)
      → ((draft (tables.next_id db)).id ≡ tables.next_id db)
        × ((draft (tables.next_id db)).owner_id ≡ o)
      → (o' i' : ℤ) → ((o' ≡ o) × (i' ≡ tables.next_id db) → ⊥)
      → answers_at (database.insert_task draft db).1 o' i' ≡ answers_at db o' i'
  insert_elsewhere draft o db (ei, eo) o' i' other = ground (
    arith,
    tables.insert_row draft db i',
    ==ℤ_iff (tables.next_id db) i',
    ==ℤ_iff o o',
    tables.next_id_free db,
    other,
  )
