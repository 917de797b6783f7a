-- ===== src/TaskRoutes/ReadYourWrites.antt =====
-- routers/tasks.py, task_cache_dependencies.py: a read of a task after a write of it.
use fastapi_task_api.Base.{
  ℕ, ◌≡◌, ◌≢◌, ◌⊎◌, inl, inr, refl, sym, Bool, if◌then◌else◌, ◌∙◌, false, true, Option, none, some,
  Result, ok, err, http_exception, redis_error, database_error, String, List, arith,
}
use fastapi_task_api.Base.Int.{ℤ, pos, ◌≤ℤ◌, ◌==ℤ◌}
use fastapi_task_api.Base.Text.{Text}
use fastapi_task_api.Models.{
  TaskRecord, TaskUpdate, TaskUpdateBody, TaskResponse, response_of, validate_update, apply_update,
}
use fastapi_task_api.Models.Validation.{IsValidRow, update-IsValidRow}
use fastapi_task_api.Database
use fastapi_task_api.Database.{Database}
use fastapi_task_api.Redis
use fastapi_task_api.Redis.{Redis, Fault, request_lost}
use fastapi_task_api.TaskCache.{Json, build_key, lookup_task}
use fastapi_task_api.TaskCache.Coherence.{IsCoherent, Exactly}
use fastapi_task_api.TaskCache.Expiry.{OnlyExpires, still, expired-IsCoherent}
use fastapi_task_api.TaskCache.Writes.{JsonLaws}
use fastapi_task_api.TaskCacheDependencies.{CacheSettings, TaskWorld, get_cached_owned_task_or_404}
use fastapi_task_api.TaskCacheDependencies.Load.{Assumptions, IsFaithful}
use fastapi_task_api.TaskCacheDependencies.Reads.{SecondLookupFails, cached_read-Faithful}
use fastapi_task_api.TaskRoutes.{update_task, delete_task}
use fastapi_task_api.TaskRoutes.Answers.{answers_at}
use fastapi_task_api.TaskRoutes.Invalidation.{IsCoherentBut}
use fastapi_task_api.TaskRoutes.Writes.{update-IsCoherent, delete-IsCoherent}

-- The task, or a 404 if there is none, unless the lookup under the lock raises `RedisError`.
abbrev pub IsRead : Option TaskResponse → Type 0 → Result TaskResponse → Type 0
IsRead (some task) RedisFails r = (r ≡ ok task) ⊎ ((r ≡ err redis_error) × RedisFails)
IsRead none RedisFails r =
    ((detail : String) × (headers : List (String × Text)) × (r
        ≡ err (http_exception 404 detail headers)))
    ⊎ ((r ≡ err redis_error) × RedisFails)

module _ (redis : Redis) (database : Database) (json : Json) (db : database.State)
    (a : Assumptions redis database json db) (works : database.fails db ≡ false) where
  abbrev expected : ℤ → ℤ → Option TaskResponse
  expected = answers_at database a.database_laws db

  faithful_lem :
      (RedisFails : Type 0) (o i : ℤ) (answer : Option TaskResponse) (r : Result TaskResponse)
      → IsFaithful redis database json db a (Exactly expected) RedisFails o i r
      → expected o i ≡ answer
      → IsRead answer RedisFails r
  faithful_lem RedisFails o i (some task) (ok t) f e = inl (ground (arith, f, e))
  faithful_lem RedisFails o i none (ok t) f e = absurd (ground (arith, f, e))
  faithful_lem RedisFails o i (some task) (err (http_exception status detail headers)) f e =
      absurd (ground (arith, f, e))
  faithful_lem RedisFails o i none (err (http_exception status detail headers)) f e =
      inl (detail, headers, ground (arith, f))
  faithful_lem RedisFails o i answer (err database_error) f e = absurd (ground (arith, f, works))
  faithful_lem RedisFails o i (some task) (err redis_error) f e = inr (refl, f)
  faithful_lem RedisFails o i none (err redis_error) f e = inr (refl, f)
  faithful_lem RedisFails o i answer (err _) f e = absurd f

pub replaced_lem :
    (here : Bool) (q : TaskRecord) (new old : Option TaskRecord)
    → (if here then new else old) ≡ some q
    → (new ≡ some q → IsValidRow q)
    → (old ≡ some q → IsValidRow q)
    → IsValidRow q
replaced_lem true q new old h valid_new valid_old = valid_new h
replaced_lem false q new old h valid_new valid_old = valid_old h

module _ (redis : Redis) (database : Database) (json : Json) (c : CacheSettings)
    (laws : Redis.Laws.Laws redis) (tables : Database.Laws.Laws database)
    (json_laws : JsonLaws json) (sleeper : ℕ → redis.State → redis.State) where
  expired-IsCoherentBut :
      (E : ℤ → ℤ → Option TaskResponse) (o i : ℤ) (s t : redis.State)
      → ((k : Text) → (laws.value t k ≡ laws.value s k) ⊎ (laws.value t k ≡ none))
      → IsCoherentBut redis laws json E o i s
      → IsCoherentBut redis laws json E o i t
  expired-IsCoherentBut E o i s t kept c = record {
    entry = λ o' i' v h other. c.entry o' i' v (still (kept (build_key o' i')) h) other;
  }

  module _ (expires : OnlyExpires redis laws sleeper)
      (attempts_pos : pos 1 ≤ℤ c.task_cache_lock_wait_attempts)
      (seconds_nonneg : pos 0 ≤ℤ c.task_cache_lock_wait_seconds) where
    read_lem :
        (db : database.State)
        (valid : (i : ℤ) (r : TaskRecord) → tables.row db i ≡ some r → IsValidRow r) (o i : ℤ)
        (token : Text) (answer : Option TaskResponse) (w : TaskWorld redis database)
        → database.fails db ≡ false
        → w.db ≡ db
        → IsCoherent redis laws json (Exactly (answers_at database tables db)) w.redis_state
        → answers_at database tables db o i ≡ answer
        → IsRead answer
            (SecondLookupFails redis json c o i token (lookup_task redis json o i w.redis_state).1)
            (get_cached_owned_task_or_404 redis database json c sleeper o i token w).0
    read_lem db valid o i token answer w works same coherent e =
        let a : Assumptions redis database json db = record {
          redis_laws = laws;
          database_laws = tables;
          json_laws = json_laws;
          rows_valid = valid;
        } in
        let E = answers_at database tables db in
        faithful_lem redis database json db a works
          (SecondLookupFails redis json c o i token (lookup_task redis json o i w.redis_state).1) o
          i answer (get_cached_owned_task_or_404 redis database json c sleeper o i token w).0
          (cached_read-Faithful redis database json db a c
            (λ s.
              expired-IsCoherent redis laws json (Exactly E) s (redis.arrive s) (expires.arrives s))
            sleeper
            (λ n s.
              expired-IsCoherent redis laws json (Exactly E) s (sleeper n s) (expires.sleeps n s))
            attempts_pos seconds_nonneg o i token w
            (record { coherent = coherent; same_db = same })).1
          e

    -- Where nobody else writes to the cache, which agreed with the database, the rows meet the
    -- constraints, the database works, and the request of the invalidation is not lost: a read after
    -- an update of the owner's task, with a validated body, answers with the updated task, and a read
    -- after its deletion with a 404, whatever the network does, but for a `RedisError` of the lookup
    -- under the lock. The wait for the cache has at least one attempt and no negative delay.
    pub write_then_read :
        (o i : ℤ) (body : TaskUpdateBody) (u : TaskUpdate) (r : TaskRecord) (token : Text)
        (w : TaskWorld redis database)
        → let E = answers_at database tables w.db in
          let updated = update_task redis database json c o i u w in
          let deleted = delete_task redis database json c o i w in
          let read = get_cached_owned_task_or_404 redis database json c sleeper o i token in
          let Fails = λ (w' : TaskWorld redis database).
            SecondLookupFails redis json c o i token
              (lookup_task redis json o i w'.redis_state).1 in
          ((j : ℤ) (r : TaskRecord) → tables.row w.db j ≡ some r → IsValidRow r)
          → tables.row w.db i ≡ some r
          → r.owner_id ≡ o
          → validate_update body ≡ some u
          → database.fails w.db ≡ false
          → database.fails (database.update_task (apply_update u r) w.db).1 ≡ false
          → database.fails (database.delete_task i w.db).1 ≡ false
          → redis.fault w.redis_state ≢ request_lost
          → IsCoherent redis laws json (Exactly E) w.redis_state
          → IsRead (some (response_of (apply_update u r))) (Fails updated.1) (read updated.1).0
            × IsRead none (Fails deleted.1) (read deleted.1).0
    write_then_read o i body u r token w valid found own accepted works works₁ works₂ sent
          coherent =
        let r' = apply_update u r in
        let db₁ = (database.update_task r' w.db).1 in
        let db₂ = (database.delete_task i w.db).1 in
        let but = λ (db : database.State) (s : redis.State).
          expired-IsCoherentBut (answers_at database tables db) o i s (redis.arrive s)
            (expires.arrives s) in
        let (done, same₁, answer, coherent₁) =
          update-IsCoherent redis database json c laws tables o i body u r w found own
            (valid i r found) accepted works works₁ sent coherent (but db₁) in
        let (gone, same₂, absent, coherent₂) =
          delete-IsCoherent redis database json c laws tables o i r w found own works sent coherent
            (but db₂) in
        let (valid', same_id, same_owner) = update-IsValidRow body u r accepted (valid i r found) in
        (
          read_lem db₁
              (λ j q h.
                replaced_lem (r'.id ==ℤ j) q (some r') (tables.row w.db j)
                  (sym (tables.update_row r' w.db j) ∙ h) (λ e. ground (arith, e, valid'))
                  (valid j q))
              o i token (some (response_of r')) (update_task redis database json c o i u w).1 works₁
              same₁ coherent₁ answer,
          read_lem db₂
              (λ j q h.
                replaced_lem (i ==ℤ j) q none (tables.row w.db j)
                  (sym (tables.delete_row i w.db j) ∙ h) (λ e. absurd (ground (arith, e)))
                  (valid j q))
              o i token none (delete_task redis database json c o i w).1 works₂ same₂ coherent₂
              (absent o),
        )
