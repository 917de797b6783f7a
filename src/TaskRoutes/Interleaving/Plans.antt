-- ===== src/TaskRoutes/Interleaving/Plans.antt =====
-- routers/tasks.py: the commits and the invalidations that each route that writes is expected to make.
use fastapi_task_api.Base.{
  ◌≡◌, refl, sym, ◌∙◌, true, Option, none, some, List, [], ◌∷◌, if◌then◌else◌, arith, Bool-cases,
  Option-cases, inl, inr,
}
use fastapi_task_api.Base.Int.{ℤ, ◌==ℤ◌, ==ℤ_iff}
use fastapi_task_api.Base.Eq.{text_eq}
use fastapi_task_api.Models.{
  TaskRecord, TaskCreate, TaskUpdate, TaskUpdateBody, validate_update, apply_update, is_task_create,
}
use fastapi_task_api.Models.Validation.{IsValidRow, update-IsValidRow}
use fastapi_task_api.Database.Laws.{owned_by}
use fastapi_task_api.TaskCacheDependencies.{TaskWorld, invalidate_cached_task}
use fastapi_task_api.TaskCacheDependencies.Load.{owned_row}
use fastapi_task_api.TaskRoutes.{new_record}
use fastapi_task_api.TaskRoutes.ReadYourWrites.{replaced_lem}
use fastapi_task_api.TaskRoutes.Interleaving.{Setting, System, commit, invalidate, Steps, later}
use fastapi_task_api.TaskRoutes.Interleaving.Soundness.{IsValid}

module _ (setting : Setting) where
  open setting use {redis, database, json, laws, tables, cache_settings, sleeper}

  abbrev Valid : database.State → Type 0
  Valid = IsValid setting

  abbrev pub with_db : database.State → TaskWorld redis database → TaskWorld redis database
  with_db db w = record w { db = db }

  -- What a write does: it commits a state of the database, or removes the entry of a task.
  pub data Write : Type 0 where
    commits : database.State → Write
    invalidates : (o i : ℤ) → Write

  abbrev perform : Write → System redis database → System redis database
  perform (commits db) s = record s { world = with_db db s.world; history = db ∷ s.history }
  perform (invalidates o i) s = record s {
    world = (invalidate_cached_task redis database json cache_settings o i s.world).1;
  }

  abbrev pub performs : List Write → System redis database → System redis database
  performs [] s = s
  performs (x ∷ writes) s = performs writes (perform x s)

  abbrev AreValid : List Write → Type 0
  AreValid [] = Unit
  AreValid (commits db ∷ writes) = Valid db × AreValid writes
  AreValid (invalidates o i ∷ writes) = AreValid writes

  -- The writes are steps from `s`, and the world after them is `w`.
  abbrev pub Reaches : System redis database → List Write → TaskWorld redis database → Type 0
  Reaches s writes w =
      Steps redis database json cache_settings sleeper Valid s (performs writes s)
      × ((performs writes s).world ≡ w)

  pub performs-Steps :
      (s : System redis database) (writes : List Write) (t : System redis database)
      → AreValid writes
      → Steps redis database json cache_settings sleeper Valid s t
      → Steps redis database json cache_settings sleeper Valid s (performs writes t)
  performs-Steps s [] t valid steps = steps
  performs-Steps s (commits db ∷ writes) t (valid, others) steps =
      performs-Steps s writes _ others (later steps (commit db valid))
  performs-Steps s (invalidates o i ∷ writes) t valid steps =
      performs-Steps s writes _ valid (later steps (invalidate o i))

  -- The writes of an update of the task `i` for the owner `o`, whose row is `r` if there is one.
  abbrev update_writes : (o i : ℤ) → TaskUpdate → database.State → Option TaskRecord → List Write
  update_writes o i u db none = []
  update_writes o i u db (some r) =
      commits (database.update_task (apply_update u r) db).1 ∷ invalidates o i ∷ []

  abbrev pub writes_of_update : (o i : ℤ) → TaskUpdate → database.State → List Write
  writes_of_update o i u db =
      if database.fails db then [] else update_writes o i u db (owned_by o (tables.row db i))

  abbrev delete_writes : (o i : ℤ) → database.State → Option TaskRecord → List Write
  delete_writes o i db none = []
  delete_writes o i db (some r) = commits (database.delete_task i db).1 ∷ invalidates o i ∷ []

  abbrev pub writes_of_delete : (o i : ℤ) → database.State → List Write
  writes_of_delete o i db =
      if database.fails db then [] else delete_writes o i db (owned_by o (tables.row db i))

  -- The database may also fail once the new row is committed.
  abbrev pub writes_of_create : ℤ → TaskCreate → database.State → List Write
  writes_of_create o b db =
      let db' = (database.insert_task (new_record o b) db).1 in
      if database.fails db
      then []
      else if database.fails db'
      then commits db' ∷ []
      else commits db' ∷ invalidates o (tables.next_id db) ∷ []

  Valid-update :
      (r : TaskRecord) (db : database.State)
      → Valid db
      → IsValidRow r
      → Valid (database.update_task r db).1
  Valid-update r db valid here = λ j q h.
      replaced_lem (r.id ==ℤ j) q (some r) (tables.row db j) (sym (tables.update_row r db j) ∙ h)
        (λ e. ground (arith, e, here)) (valid j q)

  Valid-delete : (i : ℤ) (db : database.State) → Valid db → Valid (database.delete_task i db).1
  Valid-delete i db valid = λ j q h.
      replaced_lem (i ==ℤ j) q none (tables.row db j) (sym (tables.delete_row i db j) ∙ h)
        (λ e. absurd (ground (arith, e))) (valid j q)

  Valid-insert :
      (o : ℤ) (b : TaskCreate) (db : database.State)
      → is_task_create b ≡ true
      → Valid db
      → Valid (database.insert_task (new_record o b) db).1
  unfolding is_task_create
  Valid-insert o b db accepted valid = λ j q h.
      replaced_lem (tables.next_id db ==ℤ j) q (some (new_record o b (tables.next_id db)))
        (tables.row db j) (sym (tables.insert_row (new_record o b) db j refl) ∙ h)
        (λ e. ground (arith, e, accepted)) (valid j q)

  -- A row that the owner has.
  pub owned_lem :
      (o i : ℤ) (r : TaskRecord) (db : database.State)
      → owned_by o (tables.row db i) ≡ some r
      → (tables.row db i ≡ some r) × (r.owner_id ≡ o) × (r.id ≡ i)
  owned_lem o i r db found =
      let row' = owned_row o r (tables.row db i) (sym found) in
      (row', ground (arith, found, row', ==ℤ_iff r.owner_id o), tables.row_id db i r row')

  module _ (s : System redis database) (valid : Valid s.world.db) where
    pub update-AreValid :
        (o i : ℤ) (body : TaskUpdateBody) (u : TaskUpdate)
        → validate_update body ≡ some u
        → AreValid (writes_of_update o i u s.world.db)
    update-AreValid o i body u accepted = elim (Bool-cases (database.fails s.world.db)) [
      | inl fails ↦ rw fails tt
      | inr works ↦ elim (Option-cases (owned_by o (tables.row s.world.db i))) [
        | inl absent ↦ rw (works, absent) tt
        | inr (r, found) ↦
            let row' = (owned_lem o i r s.world.db found).0 in
            rw (works, found)
              (
                Valid-update (apply_update u r) s.world.db valid
                    (update-IsValidRow body u r accepted (valid i r row')).0,
                tt,
              )
      ]
    ]

    pub delete-AreValid : (o i : ℤ) → AreValid (writes_of_delete o i s.world.db)
    delete-AreValid o i = elim (Bool-cases (database.fails s.world.db)) [
      | inl fails ↦ rw fails tt
      | inr works ↦ elim (Option-cases (owned_by o (tables.row s.world.db i))) [
        | inl absent ↦ rw (works, absent) tt
        | inr (r, found) ↦ rw (works, found) (Valid-delete i s.world.db valid, tt)
      ]
    ]

    pub create-AreValid :
        (o : ℤ) (b : TaskCreate)
        → is_task_create b ≡ true
        → AreValid (writes_of_create o b s.world.db)
    create-AreValid o b accepted =
        let inserted = Valid-insert o b s.world.db accepted valid in
        elim (Bool-cases (database.fails s.world.db)) [
          | inl fails ↦ rw fails tt
          | inr works ↦
              elim (Bool-cases
                (database.fails (database.insert_task (new_record o b) s.world.db).1)) [
                  | inl fails' ↦ rw (works, fails') (inserted, tt)
                  | inr works' ↦ rw (works, works') (inserted, tt)
                ]
        ]
