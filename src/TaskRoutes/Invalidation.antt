-- ===== src/TaskRoutes/Invalidation.antt =====
-- task_cache_dependencies.py: what an invalidation does to a cache that agrees with the database but
-- for one task.
use fastapi_task_api.Base.{
  try_redis, ◌≡◌, ◌≢◌, sym, ◌∙◌, Option, some, ok, arith, Bool-cases, inl, inr,
}
use fastapi_task_api.Base.Int.{ℤ}
use fastapi_task_api.Base.Text.{Text}
use fastapi_task_api.Base.Eq.{◌=?◌, text_eq}
use fastapi_task_api.Base.Dict.{=?_refl}
use fastapi_task_api.Models.{TaskResponse}
use fastapi_task_api.Database.{Database}
use fastapi_task_api.Redis
use fastapi_task_api.Redis.{Redis, Fault, delivered, request_lost, reply_lost, call}
use fastapi_task_api.TaskCache
use fastapi_task_api.TaskCache.{Json, build_key, task_not_found_cache_marker}
use fastapi_task_api.TaskCache.Coherence.{IsCoherent, Exactly, Agrees, EntryAgrees-map}
use fastapi_task_api.TaskCacheDependencies.{
  CacheSettings, TaskWorld, on_redis, invalidate_cached_task,
}

module _ (redis : Redis) (laws : Redis.Laws.Laws redis) (json : Json) where
  -- Every entry of the cache agrees with the answers, but that of one owner and task.
  pub record IsCoherentBut (expected : ℤ → ℤ → Option TaskResponse) (o i : ℤ) (s : redis.State)
      : Type 0 where
    pub entry :
        (o' i' : ℤ) (v : Text)
        → laws.value s (build_key o' i') ≡ some v
        → ((o' ≡ o) × (i' ≡ i) → ⊥)
        → Agrees redis laws json (Exactly expected) v (Exactly expected o' i')

  pub changed_at :
      (E E' : ℤ → ℤ → Option TaskResponse) (o i : ℤ) (s : redis.State)
      → ((o' i' : ℤ) → ((o' ≡ o) × (i' ≡ i) → ⊥) → E' o' i' ≡ E o' i')
      → IsCoherent redis laws json (Exactly E) s
      → IsCoherentBut E' o i s
  changed_at E E' o i s same c = record {
    entry = λ o' i' v h other.
        EntryAgrees-map (v =? task_not_found_cache_marker) (json.validate v) (Exactly E o' i')
          (Exactly E' o' i') (λ answer e. same o' i' other ∙ e) (c.entry o' i' v h);
  }

  pub deleted-IsCoherent :
      (E : ℤ → ℤ → Option TaskResponse) (o i : ℤ) (s : redis.State)
      → IsCoherentBut E o i s
      → IsCoherent redis laws json (Exactly E) (redis.delete (build_key o i) s).1
  deleted-IsCoherent E o i s c = record {
    entry = λ o' i' v h.
        let e = sym (laws.delete_value (build_key o i) s (build_key o' i')) ∙ h in
        elim (Bool-cases (build_key o i =? build_key o' i')) [
          | inl same ↦ absurd (ground (arith, same, e))
          | inr other ↦
              c.entry o' i' v (ground (arith, other, e))
                (λ both. ground (arith, other, both, =?_refl (build_key o i)))
        ];
  }

module _ (redis : Redis) (database : Database) (json : Json) (c : CacheSettings) where
  -- An invalidation never raises; unless its request is lost, it deletes the entry.
  pub invalidate_lem :
      (o i : ℤ) (w : TaskWorld redis database)
      → redis.fault w.redis_state ≢ Fault.request_lost
      → invalidate_cached_task redis database json c o i w ≡ (
        ok tt,
        record w { redis_state = (redis.delete (build_key o i) (redis.arrive w.redis_state)).1 },
      )
  unfolding invalidate_cached_task try_redis on_redis TaskCache.delete_task call
  invalidate_lem o i w sent = ground arith
