-- ===== src/TaskCacheDependencies/Unguarded.antt =====
-- task_cache_dependencies.py: the one call of the cache that no `except RedisError` covers.
use fastapi_task_api.Base.{try_redis, finally, ℕ, ◌≡◌, false, some, ok, err, redis_error, arith}
use fastapi_task_api.Base.Int.{ℤ}
use fastapi_task_api.Base.Text.{Text}
use fastapi_task_api.Database.{Database}
use fastapi_task_api.Redis.{Redis}
use fastapi_task_api.RedisLock.{acquire, release}
use fastapi_task_api.TaskCache.{Json, TaskCacheLookup, lookup_task}
use fastapi_task_api.TaskCacheDependencies.{
  CacheSettings, TaskWorld, build_task_cache_lock_key, on_redis, locked_read, release_lock,
  after_acquire, after_lookup, get_cached_owned_task_or_404,
}
use fastapi_task_api.TaskCacheDependencies.Rules.{IsDone}
use fastapi_task_api.TaskCacheDependencies.Reads.{SecondLookupFails}

module _ (redis : Redis) (database : Database) (json : Json) (c : CacheSettings) where
  release-IsDone :
      (o i : ℤ) (token : Text) (w : TaskWorld redis database)
      → IsDone (release_lock redis database json c o i token w).0
  unfolding release_lock try_redis on_redis release
  release-IsDone o i token w = ground arith

  finally_raises :
      (sleeper : ℕ → redis.State → redis.State) (o i : ℤ) (token : Text)
      (w : TaskWorld redis database)
      → (lookup_task redis json o i w.redis_state).0 ≡ err redis_error
      → (after_acquire redis database json c sleeper o i (some token) w).0 ≡ err redis_error
  unfolding after_acquire finally locked_read on_redis
  finally_raises sleeper o i token w h =
      ground (arith, release-IsDone o i token (locked_read redis database json c o i w).1)

  module _ (sleeper : ℕ → redis.State → redis.State) where
    -- If the first lookup misses, the lock is granted, and the second lookup raises `RedisError`,
    -- the request ends in that `RedisError`, whatever the database has.
    pub second_lookup_unguarded :
        (o i : ℤ) (token : Text) (w : TaskWorld redis database) (l : TaskCacheLookup)
        → (lookup_task redis json o i w.redis_state).0 ≡ ok l
        → l.cache_hit ≡ false
        → SecondLookupFails redis json c o i token (lookup_task redis json o i w.redis_state).1
        → (get_cached_owned_task_or_404 redis database json c sleeper o i token w).0
          ≡ err redis_error
    unfolding get_cached_owned_task_or_404 after_lookup try_redis on_redis
    second_lookup_unguarded o i token w l found missed (t, granted, fails) =
        let m = acquire redis c.cache_lock (build_task_cache_lock_key o i) token in
        let s = (lookup_task redis json o i w.redis_state).1 in
        ground (
          arith,
          found,
          missed,
          granted,
          finally_raises sleeper o i t (record w { redis_state = (m s).1 }) fails,
        )
