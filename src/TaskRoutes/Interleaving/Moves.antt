-- ===== src/TaskRoutes/Interleaving/Moves.antt =====
-- task_cache_dependencies.py under concurrency: what each part of a request leaves in a sound system.
use fastapi_task_api.Base.{
  ℕ, ◌≡◌, refl, sym, subst, true, Option, Result, ok, err, http_exception, pure, arith, ◌∷◌, Among,
}
use fastapi_task_api.Base.Int.{ℤ}
use fastapi_task_api.Base.Text.{Text}
use fastapi_task_api.Models.{TaskRecord, TaskResponse}
use fastapi_task_api.Database.{execute}
use fastapi_task_api.Database.Laws.{owned_by}
use fastapi_task_api.Redis.{call}
use fastapi_task_api.Redis.Calls.{Returns, call_rule, bind_rule}
use fastapi_task_api.RedisLock.{acquire}
use fastapi_task_api.TaskCache.{TaskCacheLookup, build_key, lookup_task, delete_task}
use fastapi_task_api.TaskCache.Coherence.{IsCoherent, IsAnswer, lookup_sound, delete-IsCoherent}
use fastapi_task_api.TaskCache.Expiry.{expired-IsCoherent}
use fastapi_task_api.TaskCache.Writes.{IsAnyUnit}
use fastapi_task_api.TaskCacheDependencies.{
  TaskWorld, build_task_cache_lock_key, on_redis, on_database, find_owned_task, release_lock,
  invalidate_cached_task,
}
use fastapi_task_api.TaskCacheDependencies.Load.{
  Assumptions, Holds, IsFaithful, servable_lem, on_redis_rule,
}
use fastapi_task_api.TaskCacheDependencies.Locking.{IsAny, acquire_sound}
use fastapi_task_api.TaskCacheDependencies.Reads.{release_rule}
use fastapi_task_api.TaskCacheDependencies.Rules.{Leaves, IsDone, try_redis_rule}
use fastapi_task_api.TaskRoutes.Answers.{answers_at}
use fastapi_task_api.TaskRoutes.Interleaving.{Setting, System}
use fastapi_task_api.TaskRoutes.Interleaving.Soundness.{
  IsValid, WasPossible, IsFromHistory, IsSound,
}

module _ (setting : Setting) (s : System setting.redis setting.database)
    (sound : IsSound setting s) where
  open setting use {
    redis, database, json, laws, tables, json_laws, cache_settings, sleeper, expires,
  }

  abbrev pub Possible : ℤ → ℤ → Option TaskResponse → Type 0
  Possible = WasPossible setting s.history

  abbrev pub assumed : Assumptions redis database json s.world.db
  assumed = record {
    redis_laws = laws;
    database_laws = tables;
    json_laws = json_laws;
    rows_valid = sound.valid;
  }

  abbrev pub Kept : TaskWorld redis database → Type 0
  Kept = Holds redis database json s.world.db assumed Possible

  abbrev pub Faithful : Type 0 → ℤ → ℤ → Result TaskResponse → Type 0
  Faithful = IsFaithful redis database json s.world.db assumed Possible

  pub arrives :
      (t : redis.State)
      → IsCoherent redis laws json Possible t
      → IsCoherent redis laws json Possible (redis.arrive t)
  arrives t coherent =
      expired-IsCoherent redis laws json Possible t (redis.arrive t) (expires.arrives t) coherent

  pub sleeps :
      (n : ℕ) (t : redis.State)
      → IsCoherent redis laws json Possible t
      → IsCoherent redis laws json Possible (sleeper n t)
  sleeps n t coherent =
      expired-IsCoherent redis laws json Possible t (sleeper n t) (expires.sleeps n t) coherent

  pub now : (o i : ℤ) → Possible o i (answers_at database tables s.world.db o i)
  now o i = (s.world.db, sound.current, refl)

  pub kept : Kept s.world
  kept = record { coherent = sound.coherent; same_db = refl }

  pub goes-IsSound :
      (w : TaskWorld redis database) → Kept w → IsSound setting (record s { world = w })
  goes-IsSound w h = record {
    coherent = h.coherent;
    current = subst (λ db. Among db s.history) (sym h.same_db) sound.current;
    valid = subst (IsValid setting) (sym h.same_db) sound.valid;
    servable = sound.servable;
    faithful = sound.faithful;
  }

  Faithful-IsFromHistory :
      (Fails : Type 0) (o i : ℤ) (r : Result TaskResponse)
      → Faithful Fails o i r
      → IsFromHistory setting s.history o i r
  Faithful-IsFromHistory Fails o i (ok task) f = f
  Faithful-IsFromHistory Fails o i (err (http_exception status detail headers)) f = f
  Faithful-IsFromHistory Fails o i (err e) f = tt

  pub answers-IsSound :
      (Fails : Type 0) (o i : ℤ) (m : Result TaskResponse × TaskWorld redis database)
      → Leaves Kept (Faithful Fails o i) m
      → IsSound setting (record s { world = m.1; answered = (o, i, m.0) ∷ s.answered })
  answers-IsSound Fails o i (r, w) (h, f) = record {
    coherent = h.coherent;
    current = subst (λ db. Among db s.history) (sym h.same_db) sound.current;
    valid = subst (IsValid setting) (sym h.same_db) sound.valid;
    servable = sound.servable;
    faithful = (Faithful-IsFromHistory Fails o i r f, sound.faithful);
  }

  pub look_lem :
      (o i : ℤ)
      → Leaves Kept
          (Returns (IsAnswer redis laws json Possible o i))
          (on_redis redis database (lookup_task redis json o i) s.world)
  look_lem o i =
      on_redis_rule redis database json s.world.db assumed Possible
        (IsAnswer redis laws json Possible o i) (lookup_task redis json o i) s.world kept
        (lookup_sound redis laws json Possible arrives o i s.world.redis_state sound.coherent)

  pub hit_lem :
      (o i : ℤ) (l : TaskCacheLookup)
      → (on_redis redis database (lookup_task redis json o i) s.world).0 ≡ ok l
      → l.cache_hit ≡ true
      → Possible o i l.task
  hit_lem o i l answered =
      subst (Returns (IsAnswer redis laws json Possible o i)) answered (look_lem o i).1

  pub invalidate_lem :
      (o i : ℤ) → Kept (invalidate_cached_task redis database json cache_settings o i s.world).1
  unfolding invalidate_cached_task delete_task
  invalidate_lem o i =
      let remove = redis.delete (build_key o i) in
      let t = s.world.redis_state in
      let arrived = arrives t sound.coherent in
      (try_redis_rule Kept Kept IsAnyUnit IsDone (pure tt) pure (λ w p. (p, tt))
        (λ u w p q. (p, tt)) (on_redis redis database (delete_task redis json o i)) s.world
        (on_redis_rule redis database json s.world.db assumed Possible IsAnyUnit
          (delete_task redis json o i) s.world kept
          (bind_rule (IsCoherent redis laws json Possible) IsAny IsAnyUnit (λ n. pure tt)
            (λ n t p q. (p, tt)) (call redis remove) t
            (call_rule redis (IsCoherent redis laws json Possible) IsAny remove t arrived
              (delete-IsCoherent redis laws json Possible (build_key o i) (redis.arrive t) arrived)
              tt)))).0

  pub lock_lem :
      (o i : ℤ) (token : Text)
      → Kept
          (on_redis redis database
            (acquire redis cache_settings.cache_lock (build_task_cache_lock_key o i) token)
            s.world).1
  lock_lem o i token =
      (on_redis_rule redis database json s.world.db assumed Possible IsAny
        (acquire redis cache_settings.cache_lock (build_task_cache_lock_key o i) token) s.world kept
        (acquire_sound redis database json s.world.db assumed Possible cache_settings arrives
          cache_settings.cache_lock o i token s.world.redis_state sound.coherent)).0

  pub unlock_lem :
      (o i : ℤ) (token : Text)
      → Kept (release_lock redis database json cache_settings o i token s.world).1
  unlock_lem o i token =
      (release_rule redis database json s.world.db assumed Possible cache_settings arrives now o i
        token s.world kept).0

  selected_lem :
      (o i : ℤ) (r : Option TaskRecord)
      → find_owned_task redis database i o s.world ≡ (ok r, s.world)
      → r ≡ owned_by o (tables.row s.world.db i)
  unfolding find_owned_task on_database execute
  selected_lem o i r found = ground (arith, tables.select_row i o s.world.db, found)

  pub select-IsSound :
      (o i : ℤ) (r : Option TaskRecord)
      → find_owned_task redis database i o s.world ≡ (ok r, s.world)
      → IsSound setting (record s { selected = (o, i, r) ∷ s.selected })
  select-IsSound o i r found = record {
    coherent = sound.coherent;
    current = sound.current;
    valid = sound.valid;
    servable = (
      servable_lem tables s.world.db sound.valid Possible o i r (selected_lem o i r found)
          (now o i),
      sound.servable,
    );
    faithful = sound.faithful;
  }
