-- ===== src/Migrations.antt =====
-- migrations/versions, and the tables that database_models.py declares. The operations of Alembic are
-- parameters; a name of a table, column or index is its text.
pub mod Laws
pub mod History
pub mod Memory
use fastapi_task_api.Base.{
  ℕ, Bool, true, false, not, ◌||◌, Exec, List, [], ◌∷◌, ◌>>◌, continue, pure, if◌then◌else◌,
}
use fastapi_task_api.Base.Text.{Text, codes}
use fastapi_task_api.Base.Eq.{◌=?◌, text_eq}

-- `sa.Integer()`, `sa.String(length=…)`, `sa.Boolean()`, `sa.Date()`
pub data ColumnType : Type 0 where
  integer_type boolean_type date_type : ColumnType
  string_type : ℕ → ColumnType

-- `sa.Column`
pub record Column : Type 0 where
  pub name : Text
  pub column_type : ColumnType
  pub nullable : Bool

-- `sa.ForeignKeyConstraint` of one column
pub record ForeignKey : Type 0 where
  pub column : Text
  pub references_table : Text
  pub references_column : Text

pub record Index : Type 0 where
  pub name : Text
  pub columns : List Text
  pub unique : Bool

pub record Table : Type 0 where
  pub columns : List Column
  pub primary_key : List Text
  pub foreign_keys : List ForeignKey
  pub indexes : List Index

-- `alembic.op`; an operation of a batch names its table.
pub record Operations : Type 1 where
  pub State : Type 0
  pub create_table : Text → Table → Exec State (Unit {0})
  pub drop_table : Text → Exec State (Unit {0})
  pub create_index : (table_name : Text) → Index → Exec State (Unit {0})
  pub drop_index : (table_name index_name : Text) → Exec State (Unit {0})
  pub add_column : (table_name : Text) → Column → Exec State (Unit {0})
  pub drop_column : (table_name column_name : Text) → Exec State (Unit {0})

abbrev pub users : Text
users = codes "users"

abbrev pub tasks : Text
tasks = codes "tasks"

abbrev pub ix_users_username : Text
ix_users_username = codes "ix_users_username"

abbrev pub ix_tasks_owner_id : Text
ix_tasks_owner_id = codes "ix_tasks_owner_id"

abbrev pub due_date : Text
due_date = codes "due_date"

abbrev column : Text → ColumnType → Bool → Column
column name column_type nullable = record {
  name = name;
  column_type = column_type;
  nullable = nullable;
}

-- What the revision d192789f7e04 creates.
abbrev pub users_table : Table
users_table = record {
  columns =
      column (codes "id") integer_type false
      ∷ column (codes "username") (string_type 50) false
      ∷ column (codes "hashed_password") (string_type 255) false
      ∷ column (codes "is_active") boolean_type false
      ∷ [];
  primary_key = codes "id" ∷ [];
  foreign_keys = [];
  indexes = [];
}

abbrev pub users_index : Index
users_index = record { name = ix_users_username; columns = codes "username" ∷ []; unique = true }

abbrev pub tasks_table : Table
tasks_table = record {
  columns =
      column (codes "id") integer_type false
      ∷ column (codes "title") (string_type 100) false
      ∷ column (codes "description") (string_type 500) true
      ∷ column (codes "priority") integer_type false
      ∷ column (codes "completed") boolean_type false
      ∷ column (codes "owner_id") integer_type false
      ∷ [];
  primary_key = codes "id" ∷ [];
  foreign_keys =
      record { column = codes "owner_id"; references_table = users; references_column = codes "id" }
      ∷ [];
  indexes = [];
}

abbrev pub tasks_index : Index
tasks_index = record { name = ix_tasks_owner_id; columns = codes "owner_id" ∷ []; unique = false }

abbrev pub due_date_column : Column
due_date_column = column due_date date_type true

module _ (op : Operations) where
  -- `upgrade` and `downgrade` of the revision d192789f7e04
  unfoldable pub upgrade_d192789f7e04 : Exec op.State (Unit {0})
  upgrade_d192789f7e04 =
      op.create_table users users_table
      >> op.create_index users users_index
      >> op.create_table tasks tasks_table
      >> op.create_index tasks tasks_index

  unfoldable pub downgrade_d192789f7e04 : Exec op.State (Unit {0})
  downgrade_d192789f7e04 =
      op.drop_index tasks ix_tasks_owner_id
      >> op.drop_table tasks
      >> op.drop_index users ix_users_username
      >> op.drop_table users

  -- `upgrade` and `downgrade` of the revision 10cca2d2581a, which revises it
  unfoldable pub upgrade_10cca2d2581a : Exec op.State (Unit {0})
  upgrade_10cca2d2581a = op.add_column tasks due_date_column

  unfoldable pub downgrade_10cca2d2581a : Exec op.State (Unit {0})
  downgrade_10cca2d2581a = op.drop_column tasks due_date

-- What the models declare: a mapped column of `int` is an Integer, and `index=True` is an index
-- `ix_<table>_<column>`, which `unique=True` makes unique.
abbrev pub user_record_table : Table
user_record_table = record {
  columns =
      column (codes "id") integer_type false
      ∷ column (codes "username") (string_type 50) false
      ∷ column (codes "hashed_password") (string_type 255) false
      ∷ column (codes "is_active") boolean_type false
      ∷ [];
  primary_key = codes "id" ∷ [];
  foreign_keys = [];
  indexes =
      record { name = ix_users_username; columns = codes "username" ∷ []; unique = true } ∷ [];
}

abbrev pub task_record_table : Table
task_record_table = record {
  columns =
      column (codes "id") integer_type false
      ∷ column (codes "title") (string_type 100) false
      ∷ column (codes "description") (string_type 500) true
      ∷ column (codes "priority") integer_type false
      ∷ column (codes "completed") boolean_type false
      ∷ column (codes "owner_id") integer_type false
      ∷ column (codes "due_date") date_type true
      ∷ [];
  primary_key = codes "id" ∷ [];
  foreign_keys =
      record { column = codes "owner_id"; references_table = users; references_column = codes "id" }
      ∷ [];
  indexes =
      record { name = ix_tasks_owner_id; columns = codes "owner_id" ∷ []; unique = false } ∷ [];
}
