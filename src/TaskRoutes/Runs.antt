-- ===== src/TaskRoutes/Runs.antt =====
-- routers/tasks.py: what a write of a task comes to when the database works and the request of the
-- invalidation is not lost.
use fastapi_task_api.Base.{◌≡◌, ◌≢◌, ◌∙◌, ap, true, false, some, ok, arith}
use fastapi_task_api.Base.Int.{ℤ, ==ℤ_iff}
use fastapi_task_api.Base.Eq.{text_eq}
use fastapi_task_api.Models.{
  TaskRecord, TaskCreate, TaskUpdate, TaskUpdateBody, response_of, validate_update, apply_update,
  is_task_create,
}
use fastapi_task_api.Models.Validation.{IsValidRow, validate_response_row, update-IsValidRow}
use fastapi_task_api.Database
use fastapi_task_api.Database.{Database, execute}
use fastapi_task_api.Database.Laws.{owned_by}
use fastapi_task_api.Redis.{Redis, request_lost}
use fastapi_task_api.TaskCache.{Json, build_key}
use fastapi_task_api.TaskCacheDependencies.{CacheSettings, TaskWorld, on_database, find_owned_task}
use fastapi_task_api.TaskRoutes.{
  get_owned_task_or_404, refresh, respond, new_record, create_task, update_task, delete_task,
}
use fastapi_task_api.TaskRoutes.Invalidation.{invalidate_lem}
use fastapi_task_api.TaskRoutes.Answers.{owned_lem}

module _ (redis : Redis) (database : Database) (json : Json) (c : CacheSettings)
    (tables : Database.Laws.Laws database) where
  open database use {State, fails}

  -- The entry of the task is deleted, and the database is left as `db`.
  abbrev pub invalidated_at :
      (o i : ℤ) → State → TaskWorld redis database → TaskWorld redis database
  invalidated_at o i db w = record w {
    db = db;
    redis_state = (redis.delete (build_key o i) (redis.arrive w.redis_state)).1;
  }

  pub selected_lem :
      (o i : ℤ) (r : TaskRecord) (db : State)
      → tables.row db i ≡ some r
      → r.owner_id ≡ o
      → database.select_task i o db ≡ some r
  selected_lem o i r db found own =
      tables.select_row i o db ∙ ap (owned_by o) found ∙ owned_lem o r own

  pub find_run :
      (o i : ℤ) (r : TaskRecord) (w : TaskWorld redis database)
      → tables.row w.db i ≡ some r
      → r.owner_id ≡ o
      → fails w.db ≡ false
      → find_owned_task redis database i o w ≡ (ok (some r), w)
  unfolding find_owned_task on_database execute
  find_run o i r w found own works = simp (selected_lem o i r w.db found own, works)

  pub update_run :
      (o i : ℤ) (body : TaskUpdateBody) (u : TaskUpdate) (r : TaskRecord)
      (w : TaskWorld redis database)
      → let r' = apply_update u r in
        let db' = (database.update_task r' w.db).1 in
        tables.row w.db i ≡ some r
        → r.owner_id ≡ o
        → IsValidRow r
        → validate_update body ≡ some u
        → fails w.db ≡ false
        → fails db' ≡ false
        → redis.fault w.redis_state ≢ request_lost
        → (tables.row db' i ≡ some r')
          × (update_task redis database json c o i u w
              ≡ (ok (response_of r'), invalidated_at o i db' w))
  unfolding update_task get_owned_task_or_404 find_owned_task on_database execute refresh respond
  update_run o i body u r w found own valid accepted works works' sent =
      let r' = apply_update u r in
      let db' = (database.update_task r' w.db).1 in
      let (valid', same_id, same_owner) = update-IsValidRow body u r accepted valid in
      let id_lem = tables.row_id w.db i r found in
      let row' : tables.row db' i ≡ some r' =
        ground (arith, tables.update_row r' w.db i, ==ℤ_iff r'.id i) in
      let stored : database.select_key i db' ≡ some r' = tables.select_key_row i db' ∙ row' in
      (
        row',
        simp (
          selected_lem o i r w.db found own,
          works,
          works',
          own,
          id_lem,
          stored,
          invalidate_lem redis database json c o i (record w { db = db' }) sent,
          validate_response_row r' valid',
        ),
      )

  pub delete_run :
      (o i : ℤ) (r : TaskRecord) (w : TaskWorld redis database)
      → tables.row w.db i ≡ some r
      → r.owner_id ≡ o
      → fails w.db ≡ false
      → redis.fault w.redis_state ≢ request_lost
      → delete_task redis database json c o i w
        ≡ (ok tt, invalidated_at o i (database.delete_task i w.db).1 w)
  unfolding delete_task get_owned_task_or_404 find_owned_task on_database execute
  delete_run o i r w found own works sent = simp (
    selected_lem o i r w.db found own,
    works,
    own,
    tables.row_id w.db i r found,
    invalidate_lem redis database json c o i (record w { db = (database.delete_task i w.db).1 })
        sent,
  )

  pub create_run :
      (o : ℤ) (b : TaskCreate) (w : TaskWorld redis database)
      → let i = tables.next_id w.db in
        let r = new_record o b i in
        let db' = (database.insert_task (new_record o b) w.db).1 in
        is_task_create b ≡ true
        → fails w.db ≡ false
        → fails db' ≡ false
        → redis.fault w.redis_state ≢ request_lost
        → (tables.row db' i ≡ some r)
          × (create_task redis database json c o b w
              ≡ (ok (response_of r), invalidated_at o i db' w))
  unfolding create_task on_database execute refresh respond is_task_create
  create_run o b w accepted works works' sent =
      let i = tables.next_id w.db in
      let r = new_record o b i in
      let db' = (database.insert_task (new_record o b) w.db).1 in
      let row' : tables.row db' i ≡ some r =
        ground (arith, tables.insert_row (new_record o b) w.db i, ==ℤ_iff i i) in
      let stored : database.select_key i db' ≡ some r = tables.select_key_row i db' ∙ row' in
      (
        row',
        simp (
          works,
          works',
          tables.insert_reply (new_record o b) w.db,
          stored,
          invalidate_lem redis database json c o i (record w { db = db' }) sent,
          validate_response_row r accepted,
        ),
      )
