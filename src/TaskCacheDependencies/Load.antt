-- ===== src/TaskCacheDependencies/Load.antt =====
-- task_cache_dependencies.py: `load_owned_task_from_database` answers with a possible task, such as
-- the database's, and leaves a coherent cache.
use fastapi_task_api.Base.{
  ◌≡◌, refl, sym, subst, ap, ◌>>◌, true, Option, none, some, Result, ok, err, redis_error,
  database_error, http_exception, Exec, pure, raise, arith, Bool-cases, inl, inr,
}
use fastapi_task_api.Base.Int.{ℤ}
use fastapi_task_api.Models.{TaskRecord, TaskResponse, response_of}
use fastapi_task_api.Models.Validation.{IsValidRow, validate_response_row}
use fastapi_task_api.Database
use fastapi_task_api.Database.{Database, execute}
use fastapi_task_api.Database.Laws.{owned_by}
use fastapi_task_api.Redis
use fastapi_task_api.Redis.{Redis}
use fastapi_task_api.Redis.Calls.{Returns}
use fastapi_task_api.TaskCache.{Json, TaskCacheLookup, set_task, set_task_not_found}
use fastapi_task_api.TaskCache.Coherence.{IsCoherent, Exactly}
use fastapi_task_api.TaskCache.Writes.{
  JsonLaws, IsAnyUnit, set_task_sound, set_task_not_found_sound,
}
use fastapi_task_api.TaskCacheDependencies.{
  CacheSettings, TaskWorld, task_not_found, on_redis, on_database, find_owned_task, resolve_task,
  ignore_redis_error, resolve_cached_task, serve_response, serve_row, load_owned_task_from_database,
}
use fastapi_task_api.TaskCacheDependencies.Rules.{Leaves, IsDone, try_redis_rule, then_rule}

abbrev pub answer_of : Option TaskRecord → Option TaskResponse
answer_of none = none
answer_of (some r) = some (response_of r)

pub owned_row :
    (o : ℤ) (r : TaskRecord) (x : Option TaskRecord) → some r ≡ owned_by o x → x ≡ some r
owned_row o r none e = ground arith
owned_row o r (some r') e = ground arith

-- What the program relies on for the reads of tasks while the database is in the state `db`.
pub record Assumptions (redis : Redis) (database : Database) (json : Json) (db : database.State)
    : Type 0 where
  pub redis_laws : Redis.Laws.Laws redis
  pub database_laws : Database.Laws.Laws database
  pub json_laws : JsonLaws json
  -- the rows meet the constraints of `TaskBase`
  pub rows_valid : (i : ℤ) (r : TaskRecord) → database_laws.row db i ≡ some r → IsValidRow r

-- A row that a read has selected may be given to the client and to the cache.
abbrev pub IsServable :
    (ℤ → ℤ → Option TaskResponse → Type 0) → (o i : ℤ) → Option TaskRecord → Type 0
IsServable Possible o i none = Possible o i none
IsServable Possible o i (some r) = IsValidRow r × (r.id ≡ i) × Possible o i (some (response_of r))

-- A row that was selected from a database whose answer is possible.
pub servable_lem :
    {database : Database} (tables : Database.Laws.Laws database) (db : database.State)
    (valid : (i : ℤ) (r : TaskRecord) → tables.row db i ≡ some r → IsValidRow r)
    (Possible : ℤ → ℤ → Option TaskResponse → Type 0) (o i : ℤ) (r : Option TaskRecord)
    → r ≡ owned_by o (tables.row db i)
    → Possible o i (answer_of (owned_by o (tables.row db i)))
    → IsServable Possible o i r
servable_lem tables db valid Possible o i none e p = subst (Possible o i) (ap answer_of (sym e)) p
servable_lem tables db valid Possible o i (some r) e p =
    let found = owned_row o r (tables.row db i) e in
    (valid i r found, tables.row_id db i r found, subst (Possible o i) (ap answer_of (sym e)) p)

module _ (redis : Redis) (database : Database) (json : Json) (db : database.State)
    (a : Assumptions redis database json db) where
  -- The answer of the database for an owner and a task id.
  abbrev pub expected : ℤ → ℤ → Option TaskResponse
  expected o i = answer_of (owned_by o (a.database_laws.row db i))

  -- This is the answer that is expected.
  abbrev pub Known : ℤ → ℤ → Option TaskResponse → Type 0
  Known = Exactly expected

module _ (redis : Redis) (database : Database) (json : Json) (db : database.State)
    (a : Assumptions redis database json db) (Possible : ℤ → ℤ → Option TaskResponse → Type 0) where
  abbrev pub Coherent : redis.State → Type 0
  Coherent = IsCoherent redis a.redis_laws json Possible

  -- The database is in the state `db`, and the entries of the cache are possible answers.
  pub record Holds (w : TaskWorld redis database) : Type 0 where
    pub coherent : Coherent w.redis_state
    pub same_db : w.db ≡ db

  -- A possible answer, or the exception that kept it from being given; `RedisFails` says when that may
  -- be `RedisError`.
  abbrev pub IsFaithful : Type 0 → (o i : ℤ) → Result TaskResponse → Type 0
  IsFaithful RedisFails o i (ok task) = Possible o i (some task)
  IsFaithful RedisFails o i (err (http_exception status detail headers)) =
      (status ≡ 404) × Possible o i none
  IsFaithful RedisFails o i (err database_error) = database.fails db ≡ true
  IsFaithful RedisFails o i (err redis_error) = RedisFails
  IsFaithful RedisFails o i (err _) = ⊥

  pub on_redis_rule :
      {A : Type 0} (Q : A → Type 0) (m : Exec redis.State A) (w : TaskWorld redis database)
      → Holds w
      → Coherent (m w.redis_state).1 × Returns Q (m w.redis_state).0
      → Leaves Holds (Returns Q) (on_redis redis database m w)
  unfolding on_redis
  on_redis_rule Q m w h (c, q) = (record { coherent = c; same_db = h.same_db }, q)

  resolve_task_rule :
      (RedisFails : Type 0) (o i : ℤ) (t : Option TaskResponse) (w : TaskWorld redis database)
      → Holds w
      → Possible o i t
      → Leaves Holds (IsFaithful RedisFails o i) (resolve_task redis database t w)
  unfolding resolve_task
  resolve_task_rule RedisFails o i none w h e = (h, (refl, e))
  resolve_task_rule RedisFails o i (some task) w h e = (h, e)

  pub resolve_rule :
      (RedisFails : Type 0) (o i : ℤ) (l : TaskCacheLookup) (w : TaskWorld redis database)
      → Holds w
      → Possible o i l.task
      → Leaves Holds (IsFaithful RedisFails o i) (resolve_cached_task redis database l w)
  unfolding resolve_cached_task
  resolve_rule RedisFails o i l w h e = resolve_task_rule RedisFails o i l.task w h e

  module _ (c : CacheSettings)
      (arrives : (s : redis.State) → Coherent s → Coherent (redis.arrive s))
      (current : (o i : ℤ) → Possible o i (expected redis database json db a o i)) where
    -- A write to the cache whose `RedisError` is ignored, and what follows it.
    ignored_rule :
        {B : Type 0} (R : Result B → Type 0) (m : Exec redis.State (Unit {0}))
        (rest : Exec (TaskWorld redis database) B) (w : TaskWorld redis database)
        → Holds w
        → Coherent (m w.redis_state).1 × Returns IsAnyUnit (m w.redis_state).0
        → ((w : TaskWorld redis database) → Holds w → Leaves Holds R (rest w))
        → Leaves Holds R ((ignore_redis_error redis database json c m >> rest) w)
    ignored_rule R m rest w h kept goes_on =
        then_rule Holds R rest goes_on (ignore_redis_error redis database json c m) w (
          try_redis_rule Holds Holds IsAnyUnit IsDone (pure tt) pure (λ w' p. (p, tt))
            (λ u w' p q. (p, tt)) (on_redis redis database m) w
            (on_redis_rule IsAnyUnit m w h kept))

    pub serve_row_rule :
        (RedisFails : Type 0) (o i : ℤ) (r : Option TaskRecord) (w : TaskWorld redis database)
        → IsServable Possible o i r
        → Holds w
        → Leaves Holds (IsFaithful RedisFails o i) (serve_row redis database json c o i r w)
    unfolding serve_row serve_response
    serve_row_rule RedisFails o i none w absent h =
        ignored_rule (IsFaithful RedisFails o i) (set_task_not_found redis json c.task_cache o i)
          (raise task_not_found) w h
          (set_task_not_found_sound redis a.redis_laws json Possible arrives c.task_cache o i
            w.redis_state absent h.coherent)
          (λ w' p. (p, (refl, absent)))
    serve_row_rule RedisFails o i (some r) w (valid, same_id, present) h =
        let task = response_of r in
        rw (validate_response_row r valid) (
          ignored_rule (IsFaithful RedisFails o i)
            (set_task redis json c.jitter_generator c.task_cache o task) (pure task) w h
            (set_task_sound redis a.redis_laws json Possible arrives c.jitter_generator c.task_cache
              o task w.redis_state a.json_laws
              (subst (λ k. Possible o k (some task)) (sym same_id) present) h.coherent)
            (λ w' p. (p, present)))

    pub load_rule :
        (RedisFails : Type 0) (o i : ℤ) (w : TaskWorld redis database)
        → Holds w
        → Leaves Holds
            (IsFaithful RedisFails o i)
            (load_owned_task_from_database redis database json c o i w)
    unfolding load_owned_task_from_database find_owned_task on_database execute
    load_rule RedisFails o i w h = elim (Bool-cases (database.fails w.db)) [
      | inl fault ↦ rw fault (h, rw h.same_db at fault)
      | inr works ↦ rw works (
          serve_row_rule RedisFails o i (database.select_task i o w.db) w
            (servable_lem a.database_laws db a.rows_valid Possible o i
              (database.select_task i o w.db) (rw h.same_db (a.database_laws.select_row i o db))
              (current o i))
            h)
    ]
