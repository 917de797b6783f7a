-- ===== src/TaskRoutes/Interleaving/Routes.antt =====
-- routers/tasks.py: what the routes that write do, as commits and invalidations.
use fastapi_task_api.Base.{
  ◌≡◌, refl, sym, ◌∙◌, true, false, some, Result, ok, err, Exec, continue, ◌>>=◌, arith, Bool-cases,
  Option-cases, inl, inr,
}
use fastapi_task_api.Base.Int.{ℤ, ==ℤ_iff}
use fastapi_task_api.Base.Eq.{text_eq}
use fastapi_task_api.Models.{
  TaskRecord, TaskCreate, TaskUpdate, TaskUpdateBody, validate_update, apply_update, is_task_create,
}
use fastapi_task_api.Database.{execute}
use fastapi_task_api.Database.Laws.{owned_by}
use fastapi_task_api.TaskCacheDependencies.{
  TaskWorld, on_database, find_owned_task, invalidate_cached_task,
}
use fastapi_task_api.TaskRoutes
use fastapi_task_api.TaskRoutes.{
  get_owned_task_or_404, new_record, create_task, update_task, refresh, respond,
}
use fastapi_task_api.TaskRoutes.Runs.{find_run}
use fastapi_task_api.TaskRoutes.Interleaving.{Setting, System, start}
use fastapi_task_api.TaskRoutes.Interleaving.Plans.{
  with_db, performs-Steps, performs, Reaches, writes_of_update, writes_of_delete, writes_of_create,
  owned_lem, update-AreValid, delete-AreValid, create-AreValid,
}
use fastapi_task_api.TaskRoutes.Interleaving.Soundness.{IsValid}

module _ (setting : Setting) where
  open setting use {redis, database, json, laws, tables, cache_settings, sleeper}

  refresh_world :
      (r : TaskRecord) (w : TaskWorld redis database) → (refresh redis database r w).1 ≡ w
  unfolding refresh on_database execute
  refresh_world r w = ground arith

  respond_world :
      (r : TaskRecord) (w : TaskWorld redis database) → (respond redis database r w).1 ≡ w
  unfolding respond
  respond_world r w = ground arith

  -- A function that leaves the world as it is.
  same_after :
      {A B : Type 0} (f : A → Exec (TaskWorld redis database) B)
      → ((a : A) (w : TaskWorld redis database) → (f a w).1 ≡ w)
      → (p : Result A × TaskWorld redis database) → (continue f p).1 ≡ p.1
  same_after f same (ok a, w) = same a w
  same_after f same (err e, w) = refl

  answer_world :
      (r : TaskRecord) (w : TaskWorld redis database)
      → ((refresh redis database r >>= respond redis database) w).1 ≡ w
  answer_world r w =
      same_after (respond redis database) respond_world (refresh redis database r w)
      ∙ refresh_world r w

  same_entry :
      (o i : ℤ) (r : TaskRecord) (w : TaskWorld redis database)
      → r.owner_id ≡ o
      → r.id ≡ i
      → (invalidate_cached_task redis database json cache_settings r.owner_id r.id w).1
        ≡ (invalidate_cached_task redis database json cache_settings o i w).1
  same_entry o i r w own same_id = simp (own, same_id)

  update_found :
      (o i : ℤ) (u : TaskUpdate) (r : TaskRecord) (w : TaskWorld redis database)
      → owned_by o (tables.row w.db i) ≡ some r
      → database.fails w.db ≡ false
      → (update_task redis database json cache_settings o i u w).1
        ≡ (invalidate_cached_task redis database json cache_settings o i
            (with_db setting (database.update_task (apply_update u r) w.db).1 w)).1
  unfolding update_task get_owned_task_or_404 on_database execute
  update_found o i u r w found works =
      let (row', own, same_id) = owned_lem setting o i r w.db found in
      let db' = (database.update_task (apply_update u r) w.db).1 in
      rw (find_run redis database json cache_settings tables o i r w row' own works, works)
        (same_after (λ _. refresh redis database r >>= respond redis database) (λ _. answer_world r)
            (invalidate_cached_task redis database json cache_settings r.owner_id r.id
              (with_db setting db' w))
          ∙ same_entry o i r (with_db setting db' w) own same_id)

  update_world :
      (o i : ℤ) (u : TaskUpdate) (s : System redis database)
      → (performs setting (writes_of_update setting o i u s.world.db) s).world
        ≡ (update_task redis database json cache_settings o i u s.world).1
  unfolding update_task get_owned_task_or_404 find_owned_task on_database execute
  update_world o i u s = elim (Bool-cases (database.fails s.world.db)) [
    | inl fails ↦ simp fails
    | inr works ↦ elim (Option-cases (owned_by o (tables.row s.world.db i))) [
      | inl absent ↦ simp (works, tables.select_row i o s.world.db, absent)
      | inr (r, found) ↦
          let db' = (database.update_task (apply_update u r) s.world.db).1 in
          let planned : (performs setting (writes_of_update setting o i u s.world.db) s).world
              ≡ (invalidate_cached_task redis database json cache_settings o i
                  (with_db setting db' s.world)).1 =
            rw (works, found) refl in
          planned ∙ sym (update_found o i u r s.world found works)
    ]
  ]

  delete_found :
      (o i : ℤ) (r : TaskRecord) (w : TaskWorld redis database)
      → owned_by o (tables.row w.db i) ≡ some r
      → database.fails w.db ≡ false
      → (TaskRoutes.delete_task redis database json cache_settings o i w).1
        ≡ (invalidate_cached_task redis database json cache_settings o i
            (with_db setting (database.delete_task i w.db).1 w)).1
  unfolding TaskRoutes.delete_task get_owned_task_or_404 on_database execute
  delete_found o i r w found works =
      let (row', own, same_id) = owned_lem setting o i r w.db found in
      simp (
        find_run redis database json cache_settings tables o i r w row' own works,
        works,
        own,
        same_id,
      )

  delete_world :
      (o i : ℤ) (s : System redis database)
      → (performs setting (writes_of_delete setting o i s.world.db) s).world
        ≡ (TaskRoutes.delete_task redis database json cache_settings o i s.world).1
  unfolding TaskRoutes.delete_task get_owned_task_or_404 find_owned_task on_database execute
  delete_world o i s = elim (Bool-cases (database.fails s.world.db)) [
    | inl fails ↦ simp fails
    | inr works ↦ elim (Option-cases (owned_by o (tables.row s.world.db i))) [
      | inl absent ↦ simp (works, tables.select_row i o s.world.db, absent)
      | inr (r, found) ↦
          let db' = (database.delete_task i s.world.db).1 in
          let planned : (performs setting (writes_of_delete setting o i s.world.db) s).world
              ≡ (invalidate_cached_task redis database json cache_settings o i
                  (with_db setting db' s.world)).1 =
            rw (works, found) refl in
          planned ∙ sym (delete_found o i r s.world found works)
    ]
  ]

  create_stored :
      (o : ℤ) (b : TaskCreate) (w : TaskWorld redis database)
      → let i = tables.next_id w.db in
        let db' = (database.insert_task (new_record o b) w.db).1 in
        database.fails w.db ≡ false
        → database.fails db' ≡ false
        → (create_task redis database json cache_settings o b w).1
          ≡ (invalidate_cached_task redis database json cache_settings o i
              (with_db setting db' w)).1
  unfolding create_task refresh on_database execute
  create_stored o b w works works' =
      let i = tables.next_id w.db in
      let db' = (database.insert_task (new_record o b) w.db).1 in
      let row' : tables.row db' i ≡ some (new_record o b i) =
        ground (arith, tables.insert_row (new_record o b) w.db i, ==ℤ_iff i i) in
      let stored : database.select_key i db' ≡ some (new_record o b i) =
        tables.select_key_row i db' ∙ row' in
      rw (works, tables.insert_reply (new_record o b) w.db, works', stored, works')
        (same_after (λ _. respond redis database (new_record o b i))
          (λ _. respond_world (new_record o b i))
          (invalidate_cached_task redis database json cache_settings o i (with_db setting db' w)))

  create_world :
      (o : ℤ) (b : TaskCreate) (s : System redis database)
      → (performs setting (writes_of_create setting o b s.world.db) s).world
        ≡ (create_task redis database json cache_settings o b s.world).1
  unfolding create_task refresh on_database execute
  create_world o b s = elim (Bool-cases (database.fails s.world.db)) [
    | inl fails ↦ simp fails
    | inr works ↦
        elim (Bool-cases (database.fails (database.insert_task (new_record o b) s.world.db).1)) [
          | inl fails' ↦ simp (works, tables.insert_reply (new_record o b) s.world.db, fails')
          | inr works' ↦
              let db' = (database.insert_task (new_record o b) s.world.db).1 in
              let planned : (performs setting (writes_of_create setting o b s.world.db) s).world
                  ≡ (invalidate_cached_task redis database json cache_settings o
                      (tables.next_id s.world.db) (with_db setting db' s.world)).1 =
                rw (works, works') refl in
              planned ∙ sym (create_stored o b s.world works works')
        ]
  ]

  module _ (s : System redis database) (valid : IsValid setting s.world.db) where
    -- From a system whose database has valid rows, whatever the network and the database do, the world
    -- after an update with a validated body, a deletion and a creation of an accepted task is the one
    -- after these writes, each of them a step: nothing if the database fails at first or, for an update
    -- and a deletion, if the owner does not have the task; otherwise the commit of the row updated,
    -- deleted or inserted, and then the invalidation of the entry of this owner and task, which a
    -- creation leaves out if the database fails after the commit.
    pub writes-Reaches :
        (o i : ℤ) (body : TaskUpdateBody) (u : TaskUpdate) (b : TaskCreate)
        → validate_update body ≡ some u
        → is_task_create b ≡ true
        → let db = s.world.db in
          Reaches setting s
            (writes_of_update setting o i u db)
            (update_task redis database json cache_settings o i u s.world).1
          × Reaches setting s
              (writes_of_delete setting o i db)
              (TaskRoutes.delete_task redis database json cache_settings o i s.world).1
          × Reaches setting s
              (writes_of_create setting o b db)
              (create_task redis database json cache_settings o b s.world).1
    writes-Reaches o i body u b validated accepted = (
      (
        performs-Steps setting s (writes_of_update setting o i u s.world.db) s
            (update-AreValid setting s valid o i body u validated) start,
        update_world o i u s,
      ),
      (
        performs-Steps setting s (writes_of_delete setting o i s.world.db) s
            (delete-AreValid setting s valid o i) start,
        delete_world o i s,
      ),
      (
        performs-Steps setting s (writes_of_create setting o b s.world.db) s
            (create-AreValid setting s valid o b accepted) start,
        create_world o b s,
      ),
    )
