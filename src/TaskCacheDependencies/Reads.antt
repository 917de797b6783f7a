-- ===== src/TaskCacheDependencies/Reads.antt =====
-- task_cache_dependencies.py: `get_cached_owned_task_or_404` against the database.
use fastapi_task_api.Base.{
  ℕ, ◌≡◌, refl, sym, ap, subst, redis_error, ◌∙◌, true, Option, none, some, Result, ok, err, pure,
  Bool-cases, inl, inr, if◌then◌else◌,
}
use fastapi_task_api.Base.Int.{ℤ, pos, ◌≤ℤ◌}
use fastapi_task_api.Base.Text.{Text}
use fastapi_task_api.Base.Eq.{text_eq}
use fastapi_task_api.Models.{TaskResponse}
use fastapi_task_api.Database.{Database}
use fastapi_task_api.Redis.{Redis}
use fastapi_task_api.RedisLock.{acquire, release}
use fastapi_task_api.TaskCache.{Json, TaskCacheLookup, lookup_task, wait_for_task_cache_fill}
use fastapi_task_api.TaskCache.Coherence.{IsAnswer, lookup_sound}
use fastapi_task_api.TaskCache.Writes.{wait_sound}
use fastapi_task_api.TaskCacheDependencies.{
  CacheSettings, TaskWorld, build_task_cache_lock_key, on_redis, resolve_cached_task,
  load_owned_task_from_database, locked_read, release_lock, after_acquire, after_lookup,
  get_cached_owned_task_or_404,
}
use fastapi_task_api.TaskCacheDependencies.Locking.{IsAny, acquire_sound, release_sound}
use fastapi_task_api.TaskCacheDependencies.Rules.{
  Leaves, IsDone, try_redis_rule, finally_rule, unguarded_rule, Returns-self,
}
use fastapi_task_api.TaskCacheDependencies.Load.{
  Assumptions, expected, Known, Coherent, Holds, IsFaithful, on_redis_rule, resolve_rule, load_rule,
}

-- The lock is granted at the state `s`, and the lookup under the lock raises `RedisError`.
abbrev pub SecondLookupFails :
    (redis : Redis) → Json → CacheSettings → (o i : ℤ) → Text → redis.State → Type 0
SecondLookupFails redis json c o i token s =
    let granted = acquire redis c.cache_lock (build_task_cache_lock_key o i) token s in
    (t : Text) × (granted.0 ≡ ok (some t))
    × ((lookup_task redis json o i granted.1).0 ≡ err redis_error)

module _ (redis : Redis) (database : Database) (json : Json) (db : database.State)
    (a : Assumptions redis database json db) (Possible : ℤ → ℤ → Option TaskResponse → Type 0)
    (c : CacheSettings)
    (arrives : (s : redis.State)
      → Coherent redis database json db a Possible s
      → Coherent redis database json db a Possible (redis.arrive s))
    (current : (o i : ℤ) → Possible o i (expected redis database json db a o i)) where
  abbrev Good : redis.State → Type 0
  Good = Coherent redis database json db a Possible

  abbrev Faithful : Type 0 → (o i : ℤ) → Result TaskResponse × TaskWorld redis database → Type 0
  Faithful RedisFails o i =
      Leaves (Holds redis database json db a Possible)
        (IsFaithful redis database json db a Possible RedisFails o i)

  -- By a lookup's answer: it is given to the client, or the database is asked.
  by_lookup :
      (RedisFails : Type 0) (o i : ℤ) (l : TaskCacheLookup) (w : TaskWorld redis database)
      → Holds redis database json db a Possible w
      → (l.cache_hit ≡ true → Possible o i l.task)
      → Faithful RedisFails o i (
          (if l.cache_hit
              then resolve_cached_task redis database l
              else load_owned_task_from_database redis database json c o i)
            w)
  by_lookup RedisFails o i l w h q = elim (Bool-cases l.cache_hit) [
    | inl hit ↦
        simp hit (resolve_rule redis database json db a Possible RedisFails o i l w h (q hit))
    | inr missed ↦
        simp missed
          (load_rule redis database json db a Possible c arrives current RedisFails o i w h)
  ]

  locked_rule :
      (RedisFails : Type 0) (o i : ℤ) (w : TaskWorld redis database)
      → Holds redis database json db a Possible w
      → ((lookup_task redis json o i w.redis_state).0 ≡ err redis_error → RedisFails)
      → Faithful RedisFails o i (locked_read redis database json c o i w)
  unfolding locked_read on_redis
  locked_rule RedisFails o i w h raised =
      let answers = IsAnswer redis a.redis_laws json Possible o i in
      unguarded_rule (Holds redis database json db a Possible) answers
        (IsFaithful redis database json db a Possible RedisFails o i) _
        (λ l w' p q. by_lookup RedisFails o i l w' p q)
        (on_redis redis database (lookup_task redis json o i)) w
        (on_redis_rule redis database json db a Possible answers (lookup_task redis json o i) w h
          (lookup_sound redis a.redis_laws json Possible arrives o i w.redis_state h.coherent))
        raised

  pub release_rule :
      (o i : ℤ) (token : Text) (w : TaskWorld redis database)
      → Holds redis database json db a Possible w
      → Leaves
          (Holds redis database json db a Possible)
          IsDone
          (release_lock redis database json c o i token w)
  unfolding release_lock
  release_rule o i token w h =
      let k = build_task_cache_lock_key o i in
      try_redis_rule (Holds redis database json db a Possible)
        (Holds redis database json db a Possible) IsAny IsDone (pure tt) (λ released. pure tt)
        (λ w' p. (p, tt)) (λ b w' p q. (p, tt)) (on_redis redis database (release redis k token)) w
        (on_redis_rule redis database json db a Possible IsAny (release redis k token) w h (
          release_sound redis database json db a Possible c arrives k token w.redis_state
            h.coherent))

  module _ (sleeper : ℕ → redis.State → redis.State)
      (sleeps : (n : ℕ) (s : redis.State) → Good s → Good (sleeper n s))
      (attempts_pos : pos 1 ≤ℤ c.task_cache_lock_wait_attempts)
      (seconds_nonneg : pos 0 ≤ℤ c.task_cache_lock_wait_seconds) where
    after_acquire_rule :
        (RedisFails : Type 0) (o i : ℤ) (token : Option Text) (w : TaskWorld redis database)
        → Holds redis database json db a Possible w
        → ((t : Text)
            → token ≡ some t
            → (lookup_task redis json o i w.redis_state).0 ≡ err redis_error
            → RedisFails)
        → Faithful RedisFails o i (after_acquire redis database json c sleeper o i token w)
    unfolding after_acquire
    after_acquire_rule RedisFails o i none w h raised =
        let m =
          wait_for_task_cache_fill redis json sleeper o i c.task_cache_lock_wait_attempts
            c.task_cache_lock_wait_seconds in
        let answers = IsAnswer redis a.redis_laws json Possible o i in
        try_redis_rule (Holds redis database json db a Possible)
          (Holds redis database json db a Possible) answers
          (IsFaithful redis database json db a Possible RedisFails o i)
          (load_owned_task_from_database redis database json c o i) _
          (load_rule redis database json db a Possible c arrives current RedisFails o i)
          (λ l w' p q. by_lookup RedisFails o i l w' p q) (on_redis redis database m) w
          (on_redis_rule redis database json db a Possible answers m w h (
            wait_sound redis a.redis_laws json Possible arrives sleeper sleeps o i
              c.task_cache_lock_wait_attempts c.task_cache_lock_wait_seconds w.redis_state
              attempts_pos seconds_nonneg h.coherent))
    after_acquire_rule RedisFails o i (some token) w h raised =
        finally_rule (Holds redis database json db a Possible)
          (IsFaithful redis database json db a Possible RedisFails o i)
          (locked_read redis database json c o i) (release_lock redis database json c o i token) w
          (locked_rule RedisFails o i w h (raised token refl)) (release_rule o i token)

    after_lookup_rule :
        (RedisFails : Type 0) (o i : ℤ) (token : Text) (l : TaskCacheLookup)
        (w : TaskWorld redis database)
        → Holds redis database json db a Possible w
        → (l.cache_hit ≡ true → Possible o i l.task)
        → (SecondLookupFails redis json c o i token w.redis_state → RedisFails)
        → Faithful RedisFails o i (after_lookup redis database json c sleeper o i token l w)
    unfolding after_lookup on_redis
    after_lookup_rule RedisFails o i token l w h q raised = elim (Bool-cases l.cache_hit) [
      | inl hit ↦
          simp hit (resolve_rule redis database json db a Possible RedisFails o i l w h (q hit))
      | inr missed ↦
          let m = acquire redis c.cache_lock (build_task_cache_lock_key o i) token in
          let sound =
            acquire_sound redis database json db a Possible c arrives c.cache_lock o i token
              w.redis_state h.coherent in
          let done = on_redis_rule redis database json db a Possible IsAny m w h sound in
          simp missed (
            try_redis_rule
              (λ w'.
                Holds redis database json db a Possible w' × (w'.redis_state ≡ (m w.redis_state).1))
              (Holds redis database json db a Possible)
              (λ r. IsAny r × ((m w.redis_state).0 ≡ ok r))
              (IsFaithful redis database json db a Possible RedisFails o i)
              (load_owned_task_from_database redis database json c o i)
              (after_acquire redis database json c sleeper o i)
              (λ w' p.
                load_rule redis database json db a Possible c arrives current RedisFails o i w' p.0)
              (λ r w' p known. after_acquire_rule RedisFails o i r w' p.0 (λ t held fails. raised (
                t,
                known.1 ∙ ap ok held,
                ap (λ s. (lookup_task redis json o i s).0) (sym p.1) ∙ fails,
              )))
              (on_redis redis database m) w
              ((done.0, refl), Returns-self IsAny (m w.redis_state).0 done.1))
    ]

    -- A read from a world that holds gives a possible answer, or fails with cause.
    pub read_possible :
        (o i : ℤ) (token : Text) (w : TaskWorld redis database)
        → Holds redis database json db a Possible w
        → Faithful
            (SecondLookupFails redis json c o i token (lookup_task redis json o i w.redis_state).1)
            o
            i
            (get_cached_owned_task_or_404 redis database json c sleeper o i token w)
    unfolding get_cached_owned_task_or_404 on_redis
    read_possible o i token w h =
        let answers = IsAnswer redis a.redis_laws json Possible o i in
        let m = lookup_task redis json o i in
        let Fails = SecondLookupFails redis json c o i token (m w.redis_state).1 in
        let done =
          on_redis_rule redis database json db a Possible answers m w h
            (lookup_sound redis a.redis_laws json Possible arrives o i w.redis_state h.coherent) in
        try_redis_rule
          (λ w'.
            Holds redis database json db a Possible w' × (w'.redis_state ≡ (m w.redis_state).1))
          (Holds redis database json db a Possible) answers
          (IsFaithful redis database json db a Possible Fails o i)
          (load_owned_task_from_database redis database json c o i)
          (after_lookup redis database json c sleeper o i token)
          (λ w' p. load_rule redis database json db a Possible c arrives current Fails o i w' p.0)
          (λ l w' p q.
            after_lookup_rule Fails o i token l w' p.0 q
              (λ f. subst (SecondLookupFails redis json c o i token) p.1 f))
          (on_redis redis database m) w ((done.0, refl), done.1)

module _ (redis : Redis) (database : Database) (json : Json) (db : database.State)
    (a : Assumptions redis database json db) (c : CacheSettings)
    (arrives : (s : redis.State)
      → Coherent redis database json db a (Known redis database json db a) s
      → Coherent redis database json db a (Known redis database json db a) (redis.arrive s))
    (sleeper : ℕ → redis.State → redis.State)
    (sleeps : (n : ℕ) (s : redis.State)
      → Coherent redis database json db a (Known redis database json db a) s
      → Coherent redis database json db a (Known redis database json db a) (sleeper n s))
    (attempts_pos : pos 1 ≤ℤ c.task_cache_lock_wait_attempts)
    (seconds_nonneg : pos 0 ≤ℤ c.task_cache_lock_wait_seconds) where
  -- While the database stays in one state, its rows meeting the constraints of `TaskBase` and others'
  -- commands keeping the cache in agreement with it, started from such a cache, and with a wait of
  -- at least one attempt and no negative delay: whatever the network does, a read of a task ends in
  -- the task of the database, in a 404 only for a task that the owner does not have there, or in
  -- an exception because the database failed, or because the lock was granted and the lookup under
  -- it raised `RedisError`. The cache agrees with the database afterwards.
  pub cached_read-Faithful :
      (o i : ℤ) (token : Text) (w : TaskWorld redis database)
      → Holds redis database json db a (Known redis database json db a) w
      → Leaves
          (Holds redis database json db a (Known redis database json db a))
          (IsFaithful redis database json db a
            (Known redis database json db a)
            (SecondLookupFails redis json c o i token (lookup_task redis json o i w.redis_state).1)
            o
            i)
          (get_cached_owned_task_or_404 redis database json c sleeper o i token w)
  cached_read-Faithful =
      read_possible redis database json db a (Known redis database json db a) c arrives
        (λ o i. refl) sleeper sleeps attempts_pos seconds_nonneg
