-- ===== src/TaskCacheDependencies.antt =====
-- task_cache_dependencies.py and `find_owned_task` of task_dependencies.py. A request runs in a
-- thread of its own; each `from_thread.run` is a call of the client, before which `arrive` says what
-- else happens on the Redis server. Warnings that are only logged are left out.
pub mod Rules
pub mod Load
pub mod Locking
pub mod Reads
pub mod Unguarded
use fastapi_task_api.Base.{
  or_handle, try_redis, conclude, finally, ℕ, ◌++◌, ◌∷◌, [], Bool, Option, none, some, Result, ok,
  err, Error, redis_error, validation_error, http_exception, Exec, continue, pure, raise, ◌>>=◌,
  ◌>>◌, if◌then◌else◌,
}
use fastapi_task_api.Base.Int.{ℤ}
use fastapi_task_api.Base.Text.{Text, codes, str}
use fastapi_task_api.Models.{TaskRecord, TaskResponse, validate_response}
use fastapi_task_api.Database.{Database, execute}
use fastapi_task_api.Redis.{Redis}
use fastapi_task_api.RedisLock.{RedisLock, acquire, release}
use fastapi_task_api.TaskCache.{
  TaskCache, TaskCacheLookup, Json, lookup_task, set_task, set_task_not_found, delete_task,
  wait_for_task_cache_fill,
}

-- What the handlers of tasks read and write.
pub record World (RedisState DatabaseState : Type 0) : Type 0 where
  pub redis_state : RedisState
  pub db : DatabaseState

-- `task_cache`, `cache_lock` and the settings of a wait, as the dependencies build them, with the
-- sources of delays and of randomness.
pub record CacheSettings : Type 0 where
  pub task_cache : TaskCache
  pub cache_lock : RedisLock
  pub task_cache_lock_wait_attempts : ℤ
  pub task_cache_lock_wait_seconds : ℤ
  pub jitter_generator : ℕ → ℕ → ℕ

unfoldable pub build_task_cache_lock_key : (owner_id task_id : ℤ) → Text
build_task_cache_lock_key owner_id task_id =
    codes "lock:task:" ++ (str owner_id ++ (b':' ∷ str task_id))

abbrev pub task_not_found : Error
task_not_found = http_exception 404 "Task not found" []

module _ (redis : Redis) (database : Database) where
  abbrev pub TaskWorld : Type 0
  TaskWorld = World redis.State database.State

  unfoldable pub on_redis : {A : Type 0} → Exec redis.State A → Exec TaskWorld A
  on_redis m w = let (r, s) = m w.redis_state in (r, record w { redis_state = s })

  unfoldable pub on_database : {A : Type 0} → Exec database.State A → Exec TaskWorld A
  on_database m w = let (r, db) = m w.db in (r, record w { db = db })

  -- `session.scalar(select(TaskRecord).where(…))`
  unfoldable pub find_owned_task : (task_id owner_id : ℤ) → Exec TaskWorld (Option TaskRecord)
  unfolding on_database
  find_owned_task task_id owner_id =
      on_database (execute database (λ db. (database.select_task task_id owner_id db, db)))

  unfoldable pub resolve_task : Option TaskResponse → Exec TaskWorld TaskResponse
  resolve_task none = raise task_not_found
  resolve_task (some task) = pure task

  unfoldable pub resolve_cached_task : TaskCacheLookup → Exec TaskWorld TaskResponse
  unfolding resolve_task
  resolve_cached_task cache_lookup = resolve_task cache_lookup.task

module _ (redis : Redis) (database : Database) (json : Json) (c : CacheSettings) where
  abbrev ignore_redis_error :
      Exec redis.State (Unit {0}) → Exec (TaskWorld redis database) (Unit {0})
  ignore_redis_error m = try_redis (on_redis redis database m) (pure tt) pure

  -- `load_owned_task_from_database` for the response that validation gives; `none` has raised.
  unfoldable pub serve_response :
      ℤ → Option TaskResponse → Exec (TaskWorld redis database) TaskResponse
  serve_response owner_id none = raise validation_error
  serve_response owner_id (some task_response) =
      ignore_redis_error
        (set_task redis json c.jitter_generator c.task_cache owner_id task_response)
      >> pure task_response

  -- `load_owned_task_from_database` for the row found.
  unfoldable pub serve_row :
      (owner_id task_id : ℤ) → Option TaskRecord → Exec (TaskWorld redis database) TaskResponse
  serve_row owner_id task_id none =
      ignore_redis_error (set_task_not_found redis json c.task_cache owner_id task_id)
      >> raise task_not_found
  serve_row owner_id task_id (some task_record) =
      serve_response owner_id (validate_response task_record)

  unfoldable pub load_owned_task_from_database :
      (owner_id task_id : ℤ) → Exec (TaskWorld redis database) TaskResponse
  unfolding serve_row serve_response
  load_owned_task_from_database owner_id task_id = do
    task_record ← find_owned_task redis database task_id owner_id
    serve_row owner_id task_id task_record

  unfoldable pub invalidate_cached_task :
      (owner_id task_id : ℤ) → Exec (TaskWorld redis database) (Unit {0})
  invalidate_cached_task owner_id task_id =
      ignore_redis_error (delete_task redis json owner_id task_id)

  -- The second lookup and what follows it, under the lock.
  unfoldable pub locked_read : (owner_id task_id : ℤ) → Exec (TaskWorld redis database) TaskResponse
  locked_read owner_id task_id = do
    second_lookup ← on_redis redis database (lookup_task redis json owner_id task_id)
    if second_lookup.cache_hit
        then resolve_cached_task redis database second_lookup
        else load_owned_task_from_database owner_id task_id

  unfoldable pub release_lock :
      (owner_id task_id : ℤ) → Text → Exec (TaskWorld redis database) (Unit {0})
  release_lock owner_id task_id lock_token =
      try_redis
        (on_redis redis database
          (release redis (build_task_cache_lock_key owner_id task_id) lock_token))
        (pure tt) (λ released. pure tt)

  module _ (sleeper : ℕ → redis.State → redis.State) where
    -- What follows the first lookup's miss, by the answer of the lock.
    unfoldable pub after_acquire :
        (owner_id task_id : ℤ) → Option Text → Exec (TaskWorld redis database) TaskResponse
    after_acquire owner_id task_id none =
        try_redis
          (on_redis redis database (
            wait_for_task_cache_fill redis json sleeper owner_id task_id
              c.task_cache_lock_wait_attempts c.task_cache_lock_wait_seconds))
          (load_owned_task_from_database owner_id task_id)
          λ waited_lookup.
            if waited_lookup.cache_hit
            then resolve_cached_task redis database waited_lookup
            else load_owned_task_from_database owner_id task_id
    after_acquire owner_id task_id (some lock_token) =
        finally (locked_read owner_id task_id) (release_lock owner_id task_id lock_token)

    unfoldable pub after_lookup :
        (owner_id task_id : ℤ)
        → Text
        → TaskCacheLookup
        → Exec (TaskWorld redis database) TaskResponse
    after_lookup owner_id task_id lock_token initial_lookup =
        if initial_lookup.cache_hit
        then resolve_cached_task redis database initial_lookup
        else try_redis
            (on_redis redis database
              (acquire redis c.cache_lock (build_task_cache_lock_key owner_id task_id) lock_token))
            (load_owned_task_from_database owner_id task_id) (after_acquire owner_id task_id)

    -- `owner_id` is `current_user.id`, and `lock_token` the token that the lock would generate.
    unfoldable pub get_cached_owned_task_or_404 :
        (owner_id task_id : ℤ) → Text → Exec (TaskWorld redis database) TaskResponse
    get_cached_owned_task_or_404 owner_id task_id lock_token =
        try_redis (on_redis redis database (lookup_task redis json owner_id task_id))
          (load_owned_task_from_database owner_id task_id)
          (after_lookup owner_id task_id lock_token)
