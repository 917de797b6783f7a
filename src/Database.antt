-- ===== src/Database.antt =====
-- The SQL database behind SQLAlchemy, which the program calls and does not implement: the statements
-- that the program issues are parameters, and what it relies on is stated as laws. An operation that
-- fails raises `SQLAlchemyError` and leaves the database as it was.
pub mod Laws
pub mod Tables
use fastapi_task_api.Base.{
  ℕ, Bool, Option, Exec, Result, ok, err, database_error, List, if◌then◌else◌,
}
use fastapi_task_api.Base.Int.{ℤ}
use fastapi_task_api.Models.{TaskRecord}

pub record Database : Type 1 where
  pub State : Type 0
  -- the next operation fails
  pub fails : State → Bool
  -- SELECT … FROM tasks WHERE id = … AND owner_id = …
  pub select_task : (task_id owner_id : ℤ) → State → Option TaskRecord
  -- SELECT … FROM tasks WHERE owner_id = … ORDER BY id
  pub select_owned : (owner_id : ℤ) → State → List TaskRecord
  -- SELECT … FROM tasks WHERE id = …
  pub select_key : ℤ → State → Option TaskRecord
  -- INSERT of a row, given but for its id, which the database picks; the row inserted
  pub insert_task : (ℤ → TaskRecord) → State → TaskRecord × State
  -- UPDATE of the row of this id
  pub update_task : TaskRecord → State → Unit {0} × State
  -- DELETE of the row of this id
  pub delete_task : ℤ → State → Unit {0} × State

module _ (database : Database) where
  open database use {State, fails}

  unfoldable pub execute : {A : Type 0} → (State → A × State) → Exec State A
  execute statement db =
      let (a, db') = statement db in if fails db then (err database_error, db) else (ok a, db')
