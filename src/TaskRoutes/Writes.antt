-- ===== src/TaskRoutes/Writes.antt =====
-- routers/tasks.py: what the writes of tasks do to the database and to the cache.
use fastapi_task_api.Base.{◌≡◌, ◌≢◌, refl, ◌∙◌, ap, true, false, Option, none, some, ok, err, arith}
use fastapi_task_api.Base.Int.{ℤ, ==ℤ_iff}
use fastapi_task_api.Base.Eq.{text_eq}
use fastapi_task_api.Models.{
  TaskRecord, TaskCreate, TaskUpdate, TaskUpdateBody, TaskResponse, response_of, validate_update,
  apply_update, is_task_create,
}
use fastapi_task_api.Models.Validation.{IsValidRow, update-IsValidRow}
use fastapi_task_api.Database
use fastapi_task_api.Database.{Database, execute}
use fastapi_task_api.Database.Laws.{owned_by}
use fastapi_task_api.Redis
use fastapi_task_api.Redis.{Redis, Fault, delivered, request_lost, reply_lost, call}
use fastapi_task_api.TaskCache.{Json, build_key}
use fastapi_task_api.TaskCache.Coherence.{IsCoherent, Exactly}
use fastapi_task_api.TaskCacheDependencies.{
  CacheSettings, TaskWorld, task_not_found, on_database, find_owned_task,
}
use fastapi_task_api.TaskCacheDependencies.Load.{answer_of}
use fastapi_task_api.TaskRoutes.{
  get_owned_task_or_404, new_record, create_task, update_task, delete_task,
}
use fastapi_task_api.TaskRoutes.Runs.{update_run, delete_run, create_run}
use fastapi_task_api.TaskRoutes.Invalidation.{IsCoherentBut, changed_at, deleted-IsCoherent}
use fastapi_task_api.TaskRoutes.Answers.{
  answers_at, update_elsewhere, delete_elsewhere, insert_elsewhere, owned_lem,
}

module _ (redis : Redis) (database : Database) (json : Json) (c : CacheSettings)
    (laws : Redis.Laws.Laws redis) (tables : Database.Laws.Laws database) where
  open database use {State, fails}

  -- The answer of a database for an owner and a task id.
  abbrev pub answers : State → ℤ → ℤ → Option TaskResponse
  answers = answers_at database tables

  -- While the database works, a task that it does not have, or has for another owner, can neither be
  -- updated nor deleted: both end in a 404 with the database and the cache as they were.
  pub foreign_untouched :
      (o i : ℤ) (u : TaskUpdate) (w : TaskWorld redis database)
      → fails w.db ≡ false
      → owned_by o (tables.row w.db i) ≡ none
      → (update_task redis database json c o i u w ≡ (err task_not_found, w))
        × (delete_task redis database json c o i w ≡ (err task_not_found, w))
  unfolding update_task delete_task get_owned_task_or_404 find_owned_task on_database execute
  foreign_untouched o i u w works absent =
      (ground (arith, tables.select_row i o w.db), ground (arith, tables.select_row i o w.db))

  -- The invalidation of the entry of a task, after which the cache agrees with the database `db`, if
  -- it agreed with `E` before and `db` differs from `E` at this task alone.
  invalidated :
      (E : ℤ → ℤ → Option TaskResponse) (db : State) (o i : ℤ) (s : redis.State)
      → IsCoherent redis laws json (Exactly E) s
      → ((o' i' : ℤ) → ((o' ≡ o) × (i' ≡ i) → ⊥) → answers db o' i' ≡ E o' i')
      → ((s : redis.State)
          → IsCoherentBut redis laws json (answers db) o i s
          → IsCoherentBut redis laws json (answers db) o i (redis.arrive s))
      → IsCoherent redis laws json
          (Exactly (answers db))
          (redis.delete (build_key o i) (redis.arrive s)).1
  invalidated E db o i s coherent elsewhere arrives =
      deleted-IsCoherent redis laws json (answers db) o i (redis.arrive s)
        (arrives s (changed_at redis laws json E (answers db) o i s elsewhere coherent))

  -- An update of an owner's task, with a validated body and a valid row, while the database works:
  -- if the cache agreed with the database before, and the request of the invalidation is not lost,
  -- the answer is the updated task, the database has it, and the cache agrees with the database
  -- again, as long as others' commands keep the entries of the other tasks in agreement.
  pub update-IsCoherent :
      (o i : ℤ) (body : TaskUpdateBody) (u : TaskUpdate) (r : TaskRecord)
      (w : TaskWorld redis database)
      → let r' = apply_update u r in
        let db' = (database.update_task r' w.db).1 in
        let done = update_task redis database json c o i u w in
        tables.row w.db i ≡ some r
        → r.owner_id ≡ o
        → IsValidRow r
        → validate_update body ≡ some u
        → fails w.db ≡ false
        → fails db' ≡ false
        → redis.fault w.redis_state ≢ request_lost
        → IsCoherent redis laws json (Exactly (answers w.db)) w.redis_state
        → ((s : redis.State)
            → IsCoherentBut redis laws json (answers db') o i s
            → IsCoherentBut redis laws json (answers db') o i (redis.arrive s))
        → (done.0 ≡ ok (response_of r'))
          × (done.1.db ≡ db')
          × (answers db' o i ≡ some (response_of r'))
          × IsCoherent redis laws json (Exactly (answers db')) done.1.redis_state
  update-IsCoherent o i body u r w found own valid accepted works works' sent coherent arrives =
      let r' = apply_update u r in
      let db' = (database.update_task r' w.db).1 in
      let (valid', same_id, same_owner) = update-IsValidRow body u r accepted valid in
      let id_lem = tables.row_id w.db i r found in
      let (row', run) =
        update_run redis database json c tables o i body u r w found own valid accepted works works'
          sent in
      let answered : answers db' o i ≡ some (response_of r') =
        ap (λ x. answer_of (owned_by o x)) row'
        ∙ ap answer_of (owned_lem o r' (same_owner ∙ own)) in
      let kept =
        invalidated (answers w.db) db' o i w.redis_state coherent
          (update_elsewhere database tables r r' o i w.db found
            (own, same_owner ∙ own, same_id ∙ id_lem))
          arrives in
      rw run (refl, refl, answered, kept)

  -- A deletion of an owner's task while the database works: if the cache agreed with the database
  -- before, and the request of the invalidation is not lost, it succeeds, the database has no such
  -- task for anybody, and the cache agrees with the database again, as long as others' commands keep
  -- the entries of the other tasks in agreement.
  pub delete-IsCoherent :
      (o i : ℤ) (r : TaskRecord) (w : TaskWorld redis database)
      → let db' = (database.delete_task i w.db).1 in
        let done = delete_task redis database json c o i w in
        tables.row w.db i ≡ some r
        → r.owner_id ≡ o
        → fails w.db ≡ false
        → redis.fault w.redis_state ≢ request_lost
        → IsCoherent redis laws json (Exactly (answers w.db)) w.redis_state
        → ((s : redis.State)
            → IsCoherentBut redis laws json (answers db') o i s
            → IsCoherentBut redis laws json (answers db') o i (redis.arrive s))
        → (done.0 ≡ ok tt)
          × (done.1.db ≡ db')
          × ((o' : ℤ) → answers db' o' i ≡ none)
          × IsCoherent redis laws json (Exactly (answers db')) done.1.redis_state
  delete-IsCoherent o i r w found own works sent coherent arrives =
      let db' = (database.delete_task i w.db).1 in
      let run = delete_run redis database json c tables o i r w found own works sent in
      let kept =
        invalidated (answers w.db) db' o i w.redis_state coherent
          (delete_elsewhere database tables r o i w.db found own) arrives in
      rw run (refl, refl, (λ o'. ground (arith, tables.delete_row i w.db i, ==ℤ_iff i i)), kept)

  -- A creation by a validated body while the database works: if the cache agreed with the database
  -- before, and the request of the invalidation is not lost, the answer is the task with a fresh id,
  -- not completed, the database has it for its owner, and the cache agrees with the database again,
  -- even if it held that there was no such task, as long as others' commands keep the entries of the
  -- other tasks in agreement.
  pub create-IsCoherent :
      (o : ℤ) (b : TaskCreate) (w : TaskWorld redis database)
      → let i = tables.next_id w.db in
        let r = new_record o b i in
        let db' = (database.insert_task (new_record o b) w.db).1 in
        let done = create_task redis database json c o b w in
        is_task_create b ≡ true
        → fails w.db ≡ false
        → fails db' ≡ false
        → redis.fault w.redis_state ≢ request_lost
        → IsCoherent redis laws json (Exactly (answers w.db)) w.redis_state
        → ((s : redis.State)
            → IsCoherentBut redis laws json (answers db') o i s
            → IsCoherentBut redis laws json (answers db') o i (redis.arrive s))
        → (done.0 ≡ ok (response_of r))
          × (done.1.db ≡ db')
          × (tables.row w.db i ≡ none)
          × (answers db' o i ≡ some (response_of r))
          × IsCoherent redis laws json (Exactly (answers db')) done.1.redis_state
  create-IsCoherent o b w accepted works works' sent coherent arrives =
      let i = tables.next_id w.db in
      let r = new_record o b i in
      let db' = (database.insert_task (new_record o b) w.db).1 in
      let (row', run) = create_run redis database json c tables o b w accepted works works' sent in
      let answered : answers db' o i ≡ some (response_of r) =
        ap (λ x. answer_of (owned_by o x)) row' ∙ ap answer_of (owned_lem o r refl) in
      let kept =
        invalidated (answers w.db) db' o i w.redis_state coherent
          (insert_elsewhere database tables (new_record o b) o w.db (refl, refl)) arrives in
      rw run (refl, refl, tables.next_id_free w.db, answered, kept)
