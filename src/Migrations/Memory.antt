-- ===== src/Migrations/Memory.antt =====
-- A database in memory that meets the laws, for concrete runs: a function from names to tables.
use fastapi_task_api.Base.{
  ◌≡◌, refl, ap, ◌∙◌, true, ok, err, database_error, Exec, Option, none, some, ◌++◌, ◌∷◌, [],
  if◌then◌else◌,
}
use fastapi_task_api.Base.Text.{Text}
use fastapi_task_api.Base.Eq.{◌=?◌, text_eq}
use fastapi_task_api.Redis.Laws.{is_none}
use fastapi_task_api.Migrations.{Table, Operations}
use fastapi_task_api.Migrations.Laws.{Schema, put, without_column, without_index, Runs, Laws}

abbrev edited : Text → (Table → Option Table) → Option Table → Exec Schema (Unit {0})
edited t f none s = (err database_error, s)
edited t f (some d) s = (ok tt, put t (f d) s)

-- What an operation makes of a table that is there.
abbrev pub edit : Text → (Table → Option Table) → Exec Schema (Unit {0})
edit t f s = edited t f (s t) s

abbrev pub create : Text → Table → Exec Schema (Unit {0})
create t d s = if is_none (s t) then (ok tt, put t (some d) s) else (err database_error, s)

abbrev pub memory : Operations
memory = record {
  State = Schema;
  create_table = create;
  drop_table = λ t. edit t (λ d. none);
  create_index = λ t i. edit t (λ d. some (record d { indexes = d.indexes ++ i ∷ [] }));
  drop_index = λ t i. edit t (λ d. some (record d { indexes = without_index i d.indexes }));
  add_column = λ t c. edit t (λ d. some (record d { columns = d.columns ++ c ∷ [] }));
  drop_column = λ t c. edit t (λ d. some (record d { columns = without_column c d.columns }));
}

put_same :
    (t : Text) (x : Option Table) (s σ : Schema)
    → ((n : Text) → s n ≡ σ n)
    → (n : Text) → put t x s n ≡ put t x σ n
put_same t x s σ same n = ap (λ y. if t =? n then x else y) (same n)

pub edit-Runs :
    (t : Text) (f : Table → Option Table) (d : Table) (σ : Schema)
    → σ t ≡ some d
    → Runs (λ s. s) (edit t f) σ (put t (f d) σ)
edit-Runs t f d σ here s same = rw (same t ∙ here) (refl, put_same t (f d) s σ same)

pub create-Runs :
    (t : Text) (d : Table) (σ : Schema)
    → is_none (σ t) ≡ true
    → Runs (λ s. s) (create t d) σ (put t (some d) σ)
create-Runs t d σ absent s same =
    rw (ap is_none (same t) ∙ absent) (refl, put_same t (some d) s σ same)

abbrev pub memory_laws : Laws memory
memory_laws = record {
  table = λ s. s;
  create_table_runs = λ t d σ absent keys. create-Runs t d σ absent;
  drop_table_runs = λ t d σ here free. edit-Runs t (λ d. none) d σ here;
  create_index_runs = λ t i d σ here new known.
      edit-Runs t (λ d. some (record d { indexes = d.indexes ++ i ∷ [] })) d σ here;
  drop_index_runs = λ t i d σ here known.
      edit-Runs t (λ d. some (record d { indexes = without_index i d.indexes })) d σ here;
  add_column_runs = λ t c d σ here addable.
      edit-Runs t (λ d. some (record d { columns = d.columns ++ c ∷ [] })) d σ here;
  drop_column_runs = λ t c d σ here known unused.
      edit-Runs t (λ d. some (record d { columns = without_column c d.columns })) d σ here;
}
