-- ===== src/TaskCacheDependencies/Locking.antt =====
-- redis_lock.py under task_cache_dependencies.py: the lock leaves the cache in agreement with the database.
use fastapi_task_api.Base.{
  ◌≡◌, refl, false, not, Option, none, some, pure, ◌==◌, Bool-cases, inl, inr, if◌then◌else◌,
}
use fastapi_task_api.Base.Int.{ℤ}
use fastapi_task_api.Base.Text.{Text}
use fastapi_task_api.Base.Eq.{◌=?◌, text_eq}
use fastapi_task_api.Database.{Database}
use fastapi_task_api.Models.{TaskResponse}
use fastapi_task_api.Redis.{Redis, call}
use fastapi_task_api.Redis.Calls.{Returns, call_rule, bind_rule}
use fastapi_task_api.RedisLock.{RedisLock, acquire, release, release_lock_script, holds}
use fastapi_task_api.TaskCache.{Json, build_key}
use fastapi_task_api.TaskCache.Coherence.{get-IsCoherent, delete-IsCoherent, foreign-IsCoherent}
use fastapi_task_api.TaskCacheDependencies.{CacheSettings, build_task_cache_lock_key}
use fastapi_task_api.TaskCacheDependencies.Load.{Assumptions, Coherent}

lock_key_foreign : (o i o' i' : ℤ) → (build_task_cache_lock_key o i =? build_key o' i') ≡ false
unfolding build_task_cache_lock_key build_key
lock_key_foreign o i o' i' = refl

abbrev pub IsAny : {A : Type 0} → A → Type 0
IsAny _ = Unit

module _ (redis : Redis) (database : Database) (json : Json) (db : database.State)
    (a : Assumptions redis database json db) (Possible : ℤ → ℤ → Option TaskResponse → Type 0)
    (c : CacheSettings)
    (arrives : (s : redis.State)
      → Coherent redis database json db a Possible s
      → Coherent redis database json db a Possible (redis.arrive s)) where
  abbrev Good : redis.State → Type 0
  Good = Coherent redis database json db a Possible

  pub acquire_sound :
      (lock : RedisLock) (o i : ℤ) (token : Text) (s : redis.State)
      → Good s
      → Good (acquire redis lock (build_task_cache_lock_key o i) token s).1
        × Returns IsAny (acquire redis lock (build_task_cache_lock_key o i) token s).0
  unfolding acquire
  acquire_sound lock o i token s g =
      let k = build_task_cache_lock_key o i in
      bind_rule Good IsAny IsAny (λ acquired. pure (if acquired then some token else none))
        (λ b t p q. (p, tt)) (call redis (redis.set_nx k token lock.ttl_seconds)) s
        (call_rule redis Good IsAny (redis.set_nx k token lock.ttl_seconds) s (arrives s g)
          (foreign-IsCoherent redis a.redis_laws json Possible k token lock.ttl_seconds
            (redis.arrive s) (lock_key_foreign o i) (arrives s g))
          tt)

  script_coherent :
      (k token : Text) (s : redis.State) → Good s → Good (release_lock_script redis k token s).1
  unfolding release_lock_script
  script_coherent k token s g = elim (Bool-cases (holds (redis.get k s).0 token)) [
    | inl own ↦ rw own (
        delete-IsCoherent redis a.redis_laws json Possible k (redis.get k s).1
          (get-IsCoherent redis a.redis_laws json Possible k s g))
    | inr foreign ↦ rw foreign (get-IsCoherent redis a.redis_laws json Possible k s g)
  ]

  pub release_sound :
      (k token : Text) (s : redis.State)
      → Good s
      → Good (release redis k token s).1 × Returns IsAny (release redis k token s).0
  unfolding release
  release_sound k token s g =
      bind_rule Good IsAny IsAny (λ deleted_count. pure (not (deleted_count == 0)))
        (λ n t p q. (p, tt)) (call redis (release_lock_script redis k token)) s
        (call_rule redis Good IsAny (release_lock_script redis k token) s (arrives s g)
          (script_coherent k token (redis.arrive s) (arrives s g)) tt)
