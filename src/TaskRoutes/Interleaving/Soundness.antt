-- ===== src/TaskRoutes/Interleaving/Soundness.antt =====
-- task_cache_dependencies.py under concurrency: caches, selected rows and answers that are all from
-- the history of the database.
use fastapi_task_api.Base.{
  ◌≡◌, refl, Option, none, some, Result, ok, err, http_exception, List, ◌∷◌, All, All-map, Among,
  inl, inr,
}
use fastapi_task_api.Base.Int.{ℤ}
use fastapi_task_api.Models.{TaskRecord, TaskResponse}
use fastapi_task_api.Models.Validation.{IsValidRow}
use fastapi_task_api.TaskCache.Coherence.{IsCoherent, IsCoherent-map}
use fastapi_task_api.TaskCacheDependencies.Load.{IsServable}
use fastapi_task_api.TaskRoutes.Answers.{answers_at}
use fastapi_task_api.TaskRoutes.Interleaving.{Setting, System}

module _ (setting : Setting) where
  open setting use {redis, database, json, laws, tables, json_laws}

  -- The rows meet the constraints of `TaskBase`.
  abbrev pub IsValid : database.State → Type 0
  IsValid db = (i : ℤ) (r : TaskRecord) → tables.row db i ≡ some r → IsValidRow r

  -- A state of the database in the history gives this answer.
  abbrev pub WasPossible : List database.State → ℤ → ℤ → Option TaskResponse → Type 0
  WasPossible H o i answer =
      (db : database.State) × Among db H × (answers_at database tables db o i ≡ answer)

  -- A task, or a 404, that such a state gives, or another exception.
  abbrev pub IsFromHistory : List database.State → ℤ → ℤ → Result TaskResponse → Type 0
  IsFromHistory H o i (ok task) = WasPossible H o i (some task)
  IsFromHistory H o i (err (http_exception status detail headers)) =
      (status ≡ 404) × WasPossible H o i none
  IsFromHistory H o i (err e) = Unit

  -- The cache, the rows that are about to fill it, and the answers given are from the history.
  pub record IsSound (s : System redis database) : Type 0 where
    pub coherent : IsCoherent redis laws json (WasPossible s.history) s.world.redis_state
    pub current : Among s.world.db s.history
    pub valid : IsValid s.world.db
    pub servable : All (λ f. IsServable (WasPossible s.history) f.0 f.1 f.2) s.selected
    pub faithful : All (λ f. IsFromHistory s.history f.0 f.1 f.2) s.answered

  grown :
      (db : database.State) (H : List database.State) (o i : ℤ) (answer : Option TaskResponse)
      → WasPossible H o i answer
      → WasPossible (db ∷ H) o i answer
  grown db H o i answer (old, among, e) = (old, inr among, e)

  grown-IsFromHistory :
      (db : database.State) (H : List database.State) (o i : ℤ) (r : Result TaskResponse)
      → IsFromHistory H o i r
      → IsFromHistory (db ∷ H) o i r
  grown-IsFromHistory db H o i (ok task) h = grown db H o i (some task) h
  grown-IsFromHistory db H o i (err (http_exception status detail headers)) h =
      (h.0, grown db H o i none h.1)
  grown-IsFromHistory db H o i (err e) h = tt

  grown-IsServable :
      (db : database.State) (H : List database.State) (o i : ℤ) (r : Option TaskRecord)
      → IsServable (WasPossible H) o i r
      → IsServable (WasPossible (db ∷ H)) o i r
  grown-IsServable db H o i none h = grown db H o i none h
  grown-IsServable db H o i (some r) (valid, same, h) = (valid, same, grown db H o i _ h)

  pub commit-IsSound :
      (db : database.State) (s : System redis database)
      → IsValid db
      → IsSound s
      → IsSound (record s { world = record s.world { db = db }; history = db ∷ s.history })
  commit-IsSound db s valid h = record {
    coherent =
        IsCoherent-map redis laws json (WasPossible s.history) (WasPossible (db ∷ s.history))
          s.world.redis_state (grown db s.history) h.coherent;
    current = inl refl;
    valid = valid;
    servable = All-map _ _ s.selected (λ f. grown-IsServable db s.history f.0 f.1 f.2) h.servable;
    faithful =
        All-map _ _ s.answered (λ f. grown-IsFromHistory db s.history f.0 f.1 f.2) h.faithful;
  }
