-- ===== src/TaskRoutes/Races.antt =====
-- task_cache_dependencies.py, routers/tasks.py: a read of a task that a write overtakes.
use fastapi_task_api.Base.{try_redis, ℕ, ◌≡◌, refl, ap, ◌∙◌, false, some, ok, arith}
use fastapi_task_api.Base.Int.{ℤ}
use fastapi_task_api.Base.Text.{Text}
use fastapi_task_api.Base.Eq.{text_eq}
use fastapi_task_api.Base.Dict.{=?_refl}
use fastapi_task_api.Models.{
  TaskRecord, TaskUpdate, TaskUpdateBody, TaskResponse, response_of, validate_update, apply_update,
}
use fastapi_task_api.Models.Validation.{IsValidRow, validate_response_row, update-IsValidRow}
use fastapi_task_api.Database
use fastapi_task_api.Database.{Database}
use fastapi_task_api.Database.Laws.{owned_by}
use fastapi_task_api.Redis
use fastapi_task_api.Redis.{Redis, Fault, delivered, call}
use fastapi_task_api.TaskCache.{
  Json, build_key, lookup_task, read_reply, read_json, set_task, calculate_positive_ttl,
}
use fastapi_task_api.TaskCache.Writes.{JsonLaws}
use fastapi_task_api.TaskCacheDependencies.{
  CacheSettings, TaskWorld, find_owned_task, serve_row, serve_response,
  get_cached_owned_task_or_404, after_lookup, on_redis, resolve_cached_task, resolve_task,
}
use fastapi_task_api.TaskCacheDependencies.Load.{answer_of}
use fastapi_task_api.TaskRoutes.{update_task}
use fastapi_task_api.TaskRoutes.Answers.{answers_at, owned_lem}
use fastapi_task_api.TaskRoutes.Runs.{find_run, update_run, invalidated_at}

module _ (redis : Redis) (database : Database) (json : Json) (c : CacheSettings)
    (laws : Redis.Laws.Laws redis) (tables : Database.Laws.Laws database)
    (json_laws : JsonLaws json) (quiet : (s : redis.State) → redis.fault s ≡ delivered)
    (alone : (s : redis.State) (k : Text) → laws.value (redis.arrive s) k ≡ laws.value s k) where
  -- The fill of the cache with a valid row.
  fill_lem :
      (o i : ℤ) (r : TaskRecord) (w : TaskWorld redis database)
      → IsValidRow r
      → r.id ≡ i
      → let filled = serve_row redis database json c o i (some r) w in
        (filled.0 ≡ ok (response_of r))
        × (laws.value filled.1.redis_state (build_key o i) ≡ some (json.dump (response_of r)))
        × (filled.1.db ≡ w.db)
  unfolding serve_row serve_response try_redis on_redis set_task call
  fill_lem o i r w valid same_id =
      let s = w.redis_state in
      ground (
        arith,
        validate_response_row r valid,
        quiet s,
        laws.set_value (build_key o r.id) (json.dump (response_of r))
            (calculate_positive_ttl c.jitter_generator c.task_cache) (redis.arrive s)
            (build_key o i),
        same_id,
        =?_refl (build_key o i),
      )

  -- A read that finds the JSON form of a task answers with this task.
  hit_lem :
      (sleeper : ℕ → redis.State → redis.State) (o i : ℤ) (token : Text) (task : TaskResponse)
      (w : TaskWorld redis database)
      → laws.value w.redis_state (build_key o i) ≡ some (json.dump task)
      → (get_cached_owned_task_or_404 redis database json c sleeper o i token w).0 ≡ ok task
  unfolding get_cached_owned_task_or_404 after_lookup try_redis on_redis lookup_task read_reply
      read_json resolve_cached_task resolve_task call
  hit_lem sleeper o i token task w held =
      let s = w.redis_state in
      let reply =
        laws.get_reply (build_key o i) (redis.arrive s) ∙ alone s (build_key o i) ∙ held in
      simp (quiet s, reply, json_laws.dump-ne-marker task, json_laws.validate-dump task)

  -- A read selects the row of an owner's task; an update of this task, with a validated body, runs to
  -- its end, its invalidation included; then the read, which missed the cache before, fills it with
  -- the row that it selected. While nothing fails and nobody else is there, the update has succeeded,
  -- the database has the updated task, and yet a later read answers with the task as it was before.
  pub stale_fill :
      (sleeper : ℕ → redis.State → redis.State) (o i : ℤ) (body : TaskUpdateBody) (u : TaskUpdate)
      (r : TaskRecord) (token : Text) (w : TaskWorld redis database)
      → let r' = apply_update u r in
        let db' = (database.update_task r' w.db).1 in
        let updated = update_task redis database json c o i u w in
        let filled = serve_row redis database json c o i (some r) updated.1 in
        tables.row w.db i ≡ some r
        → r.owner_id ≡ o
        → IsValidRow r
        → validate_update body ≡ some u
        → database.fails w.db ≡ false
        → database.fails db' ≡ false
        → (find_owned_task redis database i o w ≡ (ok (some r), w))
          × (updated.0 ≡ ok (response_of r'))
          × (filled.0 ≡ ok (response_of r))
          × (answers_at database tables filled.1.db o i ≡ some (response_of r'))
          × ((get_cached_owned_task_or_404 redis database json c sleeper o i token filled.1).0
              ≡ ok (response_of r))
  stale_fill sleeper o i body u r token w found own valid accepted works works' =
      let r' = apply_update u r in
      let db' = (database.update_task r' w.db).1 in
      let (valid', same_id, same_owner) = update-IsValidRow body u r accepted valid in
      let (row', run) =
        update_run redis database json c tables o i body u r w found own valid accepted works works'
          (λ lost. ground (arith, quiet w.redis_state, lost)) in
      let w' = invalidated_at redis database json c tables o i db' w in
      let (answer, held, same_db) = fill_lem o i r w' valid (tables.row_id w.db i r found) in
      let answered : answers_at database tables db' o i ≡ some (response_of r') =
        ap (λ x. answer_of (owned_by o x)) row'
        ∙ ap answer_of (owned_lem o r' (same_owner ∙ own)) in
      rw run (
        find_run redis database json c tables o i r w found own works,
        refl,
        answer,
        ap (λ db. answers_at database tables db o i) same_db ∙ answered,
        hit_lem sleeper o i token (response_of r)
            (serve_row redis database json c o i (some r) w').1 held,
      )
