-- ===== src/Migrations/Laws.antt =====
-- What Alembic's operations do to the tables of a database, where the database accepts them: a key
-- refers to a table that is there, a table that is dropped is not referred to, a column that is added
-- to rows may be null, and a column that is dropped is in no index and no key.
use fastapi_task_api.Base.{
  ◌≡◌, Bool, true, false, ◌||◌, ok, Exec, Option, none, some, List, [], ◌∷◌, ◌++◌, All,
  if◌then◌else◌,
}
use fastapi_task_api.Base.Text.{Text}
use fastapi_task_api.Base.Eq.{◌=?◌, text_eq}
use fastapi_task_api.Redis.Laws.{is_none}
use fastapi_task_api.Migrations.{Column, ForeignKey, Index, Table, Operations}

-- The tables of a database, by name.
abbrev pub Schema : Type 0
Schema = Text → Option Table

abbrev pub put : Text → Option Table → Schema → Schema
put t d σ n = if t =? n then d else σ n

abbrev pub is_member : Text → List Text → Bool
is_member n [] = false
is_member n (m ∷ names) = (m =? n) || is_member n names

abbrev pub has_column : Text → List Column → Bool
has_column n [] = false
has_column n (c ∷ columns) = (c.name =? n) || has_column n columns

abbrev pub has_index : Text → List Index → Bool
has_index n [] = false
has_index n (i ∷ indexes) = (i.name =? n) || has_index n indexes

abbrev pub is_indexed : Text → List Index → Bool
is_indexed n [] = false
is_indexed n (i ∷ indexes) = is_member n i.columns || is_indexed n indexes

abbrev pub is_key : Text → List ForeignKey → Bool
is_key n [] = false
is_key n (k ∷ keys) = (k.column =? n) || is_key n keys

-- A column that something else of the table is made of.
abbrev pub is_used : Text → Table → Bool
is_used n d = is_member n d.primary_key || (is_indexed n d.indexes || is_key n d.foreign_keys)

abbrev pub without_column : Text → List Column → List Column
without_column n [] = []
without_column n (c ∷ columns) =
    let rest = without_column n columns in if c.name =? n then rest else c ∷ rest

abbrev pub without_index : Text → List Index → List Index
without_index n [] = []
without_index n (i ∷ indexes) =
    let rest = without_index n indexes in if i.name =? n then rest else i ∷ rest

-- No key of the table refers to this one.
abbrev pub NotReferring : Text → Option Table → Type 0
NotReferring t none = Unit
NotReferring t (some d) = All (λ k. (k.references_table =? t) ≡ false) d.foreign_keys

-- The database accepts a column in rows that it has.
abbrev pub IsAddable : Column → Table → Type 0
IsAddable c d = (has_column c.name d.columns ≡ false) × (c.nullable ≡ true)

module _ {S : Type 0} (table : S → Schema) where
  -- From a database with the tables `σ`, the operation returns, and leaves one with the tables `σ'`.
  abbrev pub Runs : Exec S (Unit {0}) → Schema → Schema → Type 0
  Runs m σ σ' =
      (s : S)
      → ((n : Text) → table s n ≡ σ n)
      → ((m s).0 ≡ ok tt) × ((n : Text) → table (m s).1 n ≡ σ' n)

pub record Laws (op : Operations) : Type 0 where
  pub table : op.State → Schema
  pub create_table_runs :
      (t : Text) (d : Table) (σ : Schema)
      → is_none (σ t) ≡ true
      → All (λ k. is_none (σ k.references_table) ≡ false) d.foreign_keys
      → Runs table (op.create_table t d) σ (put t (some d) σ)
  pub drop_table_runs :
      (t : Text) (d : Table) (σ : Schema)
      → σ t ≡ some d
      → ((n : Text) → NotReferring t (σ n))
      → Runs table (op.drop_table t) σ (put t none σ)
  pub create_index_runs :
      (t : Text) (i : Index) (d : Table) (σ : Schema)
      → σ t ≡ some d
      → has_index i.name d.indexes ≡ false
      → All (λ c. has_column c d.columns ≡ true) i.columns
      → Runs table
          (op.create_index t i)
          σ
          (put t (some (record d { indexes = d.indexes ++ i ∷ [] })) σ)
  pub drop_index_runs :
      (t i : Text) (d : Table) (σ : Schema)
      → σ t ≡ some d
      → has_index i d.indexes ≡ true
      → Runs table
          (op.drop_index t i)
          σ
          (put t (some (record d { indexes = without_index i d.indexes })) σ)
  pub add_column_runs :
      (t : Text) (c : Column) (d : Table) (σ : Schema)
      → σ t ≡ some d
      → IsAddable c d
      → Runs table
          (op.add_column t c)
          σ
          (put t (some (record d { columns = d.columns ++ c ∷ [] })) σ)
  pub drop_column_runs :
      (t c : Text) (d : Table) (σ : Schema)
      → σ t ≡ some d
      → has_column c d.columns ≡ true
      → is_used c d ≡ false
      → Runs table
          (op.drop_column t c)
          σ
          (put t (some (record d { columns = without_column c d.columns })) σ)
