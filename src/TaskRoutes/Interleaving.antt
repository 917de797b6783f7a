-- ===== src/TaskRoutes/Interleaving.antt =====
-- task_cache_dependencies.py and routers/tasks.py under concurrency: requests in any order, each
-- statement of the database and each call of Redis on its own, with other requests' in between.
pub mod Soundness
pub mod Moves
pub mod Histories
pub mod Plans
pub mod Routes
use fastapi_task_api.Base.{ℕ, ◌≡◌, true, Option, Result, ok, List, [], ◌∷◌, Among}
use fastapi_task_api.Base.Int.{ℤ, pos, ◌≤ℤ◌}
use fastapi_task_api.Base.Text.{Text}
use fastapi_task_api.Models.{TaskRecord, TaskResponse}
use fastapi_task_api.Database
use fastapi_task_api.Database.{Database}
use fastapi_task_api.Redis
use fastapi_task_api.Redis.{Redis}
use fastapi_task_api.RedisLock.{acquire}
use fastapi_task_api.TaskCache.{Json, TaskCacheLookup, lookup_task}
use fastapi_task_api.TaskCache.Expiry.{OnlyExpires}
use fastapi_task_api.TaskCache.Writes.{JsonLaws}
use fastapi_task_api.TaskCacheDependencies.{
  CacheSettings, TaskWorld, build_task_cache_lock_key, on_redis, find_owned_task, serve_row,
  resolve_cached_task, release_lock, invalidate_cached_task, get_cached_owned_task_or_404,
}

module _ (redis : Redis) (database : Database) where
  pub record System : Type 0 where
    pub world : TaskWorld redis database
    -- the states of the database so far, the latest first
    pub history : List database.State
    -- owner, task id and row of the reads that have selected and not yet filled the cache
    pub selected : List (ℤ × ℤ × Option TaskRecord)
    -- owner, task id and ending of the reads that have answered
    pub answered : List (ℤ × ℤ × Result TaskResponse)

module _ (redis : Redis) (database : Database) (json : Json) (c : CacheSettings)
    (sleeper : ℕ → redis.State → redis.State) (IsValid : database.State → Type 0) where
  abbrev goes_to : System redis database → TaskWorld redis database → System redis database
  goes_to s w = record s { world = w }

  -- A read ends.
  abbrev answers :
      (o i : ℤ)
      → System redis database
      → Result TaskResponse × TaskWorld redis database
      → System redis database
  answers o i s (r, w) = record s { world = w; answered = (o, i, r) ∷ s.answered }

  pub data Step (s : System redis database) : System redis database → Type 0 where
    -- the writes: any commit that leaves valid rows, and an invalidation at any later time
    commit :
        (db : database.State)
        → IsValid db
        → Step s (record s { world = record s.world { db = db }; history = db ∷ s.history })
    invalidate :
        (o i : ℤ) → Step s (goes_to s (invalidate_cached_task redis database json c o i s.world).1)
    -- the parts of a read
    look :
        (o i : ℤ)
        → Step s (goes_to s (on_redis redis database (lookup_task redis json o i) s.world).1)
    hit :
        (o i : ℤ) (l : TaskCacheLookup)
        → (on_redis redis database (lookup_task redis json o i) s.world).0 ≡ ok l
        → l.cache_hit ≡ true
        → Step s (
            answers o i s (
              resolve_cached_task redis database l
                (on_redis redis database (lookup_task redis json o i) s.world).1))
    lock :
        (o i : ℤ) (token : Text)
        → Step s (
            goes_to s
              (on_redis redis database
                (acquire redis c.cache_lock (build_task_cache_lock_key o i) token)
                s.world).1)
    unlock :
        (o i : ℤ) (token : Text)
        → Step s (goes_to s (release_lock redis database json c o i token s.world).1)
    sleep :
        (n : ℕ)
        → Step s (goes_to s (record s.world { redis_state = sleeper n s.world.redis_state }))
    select :
        (o i : ℤ) (r : Option TaskRecord)
        → find_owned_task redis database i o s.world ≡ (ok r, s.world)
        → Step s (record s { selected = (o, i, r) ∷ s.selected })
    serve :
        (o i : ℤ) (r : Option TaskRecord)
        → Among (o, i, r) s.selected
        → Step s (answers o i s (serve_row redis database json c o i r s.world))
    -- a whole read
    read :
        (o i : ℤ) (token : Text)
        → Step s (
            answers o i s
              (get_cached_owned_task_or_404 redis database json c sleeper o i token s.world))

  pub data Steps (s : System redis database) : System redis database → Type 0 where
    start : Steps s s
    later : {t u : System redis database} → Steps s t → Step t u → Steps s u

-- The servers that the requests run on, what is relied on, and the settings of the cache.
pub record Setting : Type 1 where
  pub redis : Redis
  pub database : Database
  pub json : Json
  pub laws : Redis.Laws.Laws redis
  pub tables : Database.Laws.Laws database
  pub json_laws : JsonLaws json
  pub cache_settings : CacheSettings
  pub sleeper : ℕ → redis.State → redis.State
  -- nobody else writes to the cache
  pub expires : OnlyExpires redis laws sleeper
  pub attempts_pos : pos 1 ≤ℤ cache_settings.task_cache_lock_wait_attempts
  pub seconds_nonneg : pos 0 ≤ℤ cache_settings.task_cache_lock_wait_seconds
