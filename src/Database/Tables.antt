-- ===== src/Database/Tables.antt =====
-- A table of tasks in memory that meets the laws, for concrete runs: rows by primary key, which a row
-- takes from the place where it stands. Statements fail while `down` says so.
use fastapi_task_api.Base.{
  ℕ, All, ◌+◌, ◌≤◌, ◌≡◌, refl, max, Bool, Option, none, some, List, [], ◌∷◌, arith, if◌then◌else◌,
}
use fastapi_task_api.Base.Int.{ℤ, pos, pos_part, ◌==ℤ◌, ==ℤ_iff}
use fastapi_task_api.Base.Eq.{int_eq}
use fastapi_task_api.Base.Dict.{Dict, lookup, insert, remove, lookup-insert, lookup-remove}
use fastapi_task_api.Models.{TaskRecord}
use fastapi_task_api.Database.{Database}
use fastapi_task_api.Database.Laws.{Laws, owned_by}

pub record Tables : Type 0 where
  pub rows : Dict ℤ TaskRecord
  pub down : Bool

abbrev pub keyed : ℤ → Option TaskRecord → Option TaskRecord
keyed i none = none
keyed i (some r) = some (record r { id = i })

abbrev pub row_at : Tables → ℤ → Option TaskRecord
row_at db i = keyed i (lookup i db.rows)

abbrev above : Dict ℤ TaskRecord → ℕ
above [] = 1
above ((j, r) ∷ rows) = max (pos_part j + 1) (above rows)

abbrev pub first_free : Tables → ℤ
first_free db = pos (above db.rows)

lookup-above : (rows : Dict ℤ TaskRecord) (n : ℕ) → above rows ≤ n → lookup (pos n) rows ≡ none
unfolding lookup
lookup-above [] n h = refl
lookup-above ((j, r) ∷ rows) n h = ground (arith, ==ℤ_iff j (pos n), lookup-above rows n)

abbrev collect : ℤ → Dict ℤ TaskRecord → List TaskRecord
collect o [] = []
collect o ((j, r) ∷ rows) =
    if r.owner_id ==ℤ o then (record r { id = j }) ∷ collect o rows else collect o rows

pub collect_owner : (o : ℤ) (rows : Dict ℤ TaskRecord) → All (λ r. r.owner_id ≡ o) (collect o rows)
collect_owner o [] = tt
collect_owner o ((j, r) ∷ rows) = ground (arith, ==ℤ_iff r.owner_id o, collect_owner o rows)

abbrev pub tables : Database
tables = record {
  State = Tables;
  fails = λ db. db.down;
  select_task = λ i o db. owned_by o (row_at db i);
  select_owned = λ o db. collect o db.rows;
  select_key = λ i db. row_at db i;
  insert_task = λ draft db.
      let r = draft (first_free db) in (r, record db { rows = insert (first_free db) r db.rows });
  update_task = λ r db. (tt, record db { rows = insert r.id r db.rows });
  delete_task = λ i db. (tt, record db { rows = remove i db.rows });
}

pub row_id_lem : (db : Tables) (i : ℤ) (r : TaskRecord) → row_at db i ≡ some r → r.id ≡ i
row_id_lem db i r h = ground arith

pub next_id_free_lem : (db : Tables) → row_at db (first_free db) ≡ none
next_id_free_lem db = ground (arith, lookup-above db.rows (above db.rows))

pub insert_row_lem :
    (draft : ℤ → TaskRecord) (db : Tables) (j : ℤ)
    → (draft (first_free db)).id ≡ first_free db
    → row_at (tables.insert_task draft db).1 j
      ≡ (if first_free db ==ℤ j then some (draft (first_free db)) else row_at db j)
insert_row_lem draft db j h = ground (
  arith,
  ==ℤ_iff (first_free db) j,
  lookup-insert (first_free db) j (draft (first_free db)) db.rows,
)

pub update_row_lem :
    (r : TaskRecord) (db : Tables) (j : ℤ)
    → row_at (tables.update_task r db).1 j ≡ (if r.id ==ℤ j then some r else row_at db j)
update_row_lem r db j = ground (arith, ==ℤ_iff r.id j, lookup-insert r.id j r db.rows)

pub delete_row_lem :
    (i : ℤ) (db : Tables) (j : ℤ)
    → row_at (tables.delete_task i db).1 j ≡ (if i ==ℤ j then none else row_at db j)
delete_row_lem i db j = ground (arith, ==ℤ_iff i j, lookup-remove i j db.rows)

abbrev pub tables_laws : Laws tables
tables_laws = record {
  row = row_at;
  row_id = row_id_lem;
  select_row = λ i o db. refl;
  select_key_row = λ i db. refl;
  select_owned_owner = λ o db. collect_owner o db.rows;
  next_id = first_free;
  next_id_free = next_id_free_lem;
  insert_reply = λ draft db. refl;
  insert_row = insert_row_lem;
  update_row = update_row_lem;
  delete_row = delete_row_lem;
}
