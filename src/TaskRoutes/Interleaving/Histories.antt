-- ===== src/TaskRoutes/Interleaving/Histories.antt =====
-- task_cache_dependencies.py under concurrency: every answer is one that the database has given.
use fastapi_task_api.Base.{◌≡◌, refl, none, Result, [], ◌∷◌, All-Among, Among, inl, arith}
use fastapi_task_api.Base.Int.{ℤ}
use fastapi_task_api.Base.Text.{Text}
use fastapi_task_api.Models.{TaskResponse}
use fastapi_task_api.TaskCache.{lookup_task, build_key}
use fastapi_task_api.TaskCacheDependencies.{TaskWorld, on_redis}
use fastapi_task_api.TaskCacheDependencies.Load.{resolve_rule, serve_row_rule}
use fastapi_task_api.TaskCacheDependencies.Reads.{SecondLookupFails, read_possible}
use fastapi_task_api.TaskRoutes.Interleaving.{
  Setting, System, Step, commit, invalidate, look, hit, lock, unlock, sleep, select, serve, read,
  Steps, start, later,
}
use fastapi_task_api.TaskRoutes.Interleaving.Soundness.{
  IsValid, IsFromHistory, IsSound, commit-IsSound,
}
use fastapi_task_api.TaskRoutes.Interleaving.Moves.{
  Possible, assumed, arrives, sleeps, now, kept, goes-IsSound, answers-IsSound, look_lem, hit_lem,
  invalidate_lem, lock_lem, unlock_lem, select-IsSound,
}

module _ (setting : Setting) where
  open setting use {redis, database, json, laws, tables, json_laws, cache_settings, sleeper}

  abbrev Valid : database.State → Type 0
  Valid = IsValid setting

  abbrev Sound : System redis database → Type 0
  Sound = IsSound setting

  Step-IsSound :
      {s t : System redis database}
      → Step redis database json cache_settings sleeper Valid s t
      → Sound s
      → Sound t
  Step-IsSound {s} (commit db valid) h = commit-IsSound setting db s valid h
  Step-IsSound {s} (invalidate o i) h = goes-IsSound setting s h _ (invalidate_lem setting s h o i)
  Step-IsSound {s} (look o i) h = goes-IsSound setting s h _ (look_lem setting s h o i).0
  Step-IsSound {s} (hit o i l answered is_hit) h =
      let looked = look_lem setting s h o i in
      answers-IsSound setting s h Unit o i _ (
        resolve_rule redis database json s.world.db (assumed setting s h) (Possible setting s h)
          Unit o i l (on_redis redis database (lookup_task redis json o i) s.world).1 looked.0
          (hit_lem setting s h o i l answered is_hit))
  Step-IsSound {s} (lock o i token) h = goes-IsSound setting s h _ (lock_lem setting s h o i token)
  Step-IsSound {s} (unlock o i token) h =
      goes-IsSound setting s h _ (unlock_lem setting s h o i token)
  Step-IsSound {s} (sleep n) h =
      goes-IsSound setting s h _
        (record { coherent = sleeps setting s h n s.world.redis_state h.coherent; same_db = refl })
  Step-IsSound {s} (select o i r found) h = select-IsSound setting s h o i r found
  Step-IsSound {s} (serve o i r among) h = answers-IsSound setting s h Unit o i _ (
      serve_row_rule redis database json s.world.db (assumed setting s h) (Possible setting s h)
        cache_settings (arrives setting s h) (now setting s h) Unit o i r s.world
        (All-Among _ (o, i, r) s.selected h.servable among) (kept setting s h))
  Step-IsSound {s} (read o i token) h =
      answers-IsSound setting s h
        (SecondLookupFails redis json cache_settings o i token
          (lookup_task redis json o i s.world.redis_state).1)
        o i _
        (read_possible redis database json s.world.db (assumed setting s h) (Possible setting s h)
          cache_settings (arrives setting s h) (now setting s h) sleeper (sleeps setting s h)
          setting.attempts_pos setting.seconds_nonneg o i token s.world (kept setting s h))

  Steps-IsSound :
      {s t : System redis database}
      → Steps redis database json cache_settings sleeper Valid s t
      → Sound s
      → Sound t
  Steps-IsSound start h = h
  Steps-IsSound (later steps step) h = Step-IsSound step (Steps-IsSound steps h)

  -- The system before any request, with what the cache holds.
  abbrev pub initial : TaskWorld redis database → System redis database
  initial w = record { world = w; history = w.db ∷ []; selected = []; answered = [] }

  -- Requests run in any interleaving, from an empty cache and valid rows: readers look up, lock, select
  -- and fill the cache on their own or in one piece, with other readers' parts, commits of any valid
  -- rows and invalidations in between, also late ones or none at all, whatever the network does, while
  -- nobody else writes to the cache. Then every answer that a read has given is a task that a state of
  -- the database so far has given for this owner and id, or a 404 where such a state has none, or
  -- another exception: it may be stale, but is never another owner's task, nor one never stored.
  pub answers-IsFromHistory :
      (w : TaskWorld redis database) (t : System redis database)
      → ((k : Text) → laws.value w.redis_state k ≡ none)
      → Valid w.db
      → Steps redis database json cache_settings sleeper Valid (initial w) t
      → (o i : ℤ) (r : Result TaskResponse) → Among (o, i, r) t.answered
      → IsFromHistory setting t.history o i r
  answers-IsFromHistory w t empty valid steps o i r among =
      let sound = Steps-IsSound steps (record {
        coherent = record { entry = λ o i v h. absurd (ground (arith, empty (build_key o i), h)) };
        current = inl refl;
        valid = valid;
        servable = tt;
        faithful = tt;
      }) in
      All-Among (λ f. IsFromHistory setting t.history f.0 f.1 f.2) (o, i, r) t.answered
        sound.faithful among
