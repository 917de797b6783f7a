-- ===== src/Tests/Interleaving.antt =====
-- routers/tasks.py and task_cache_dependencies.py: a run of requests one between the parts of another.
use fastapi_task_api.Base.{
  ◌≡◌, refl, sym, ap, inl, arith, false, some, Result, ok, [], ◌∷◌, try_redis,
}
use fastapi_task_api.Base.Int.{pos}
use fastapi_task_api.Base.Eq.{text_eq, int_eq}
use fastapi_task_api.Base.Dict.{lookup}
use fastapi_task_api.Database.{execute}
use fastapi_task_api.Database.Tables.{Tables, tables, tables_laws}
use fastapi_task_api.Models.{
  TaskResponse, response_of, validate_response, is_task_base, is_title, is_description, is_priority,
}
use fastapi_task_api.Redis.{call}
use fastapi_task_api.Redis.Server.{empty, quiet, quiet_laws}
use fastapi_task_api.TaskCache.{set_task}
use fastapi_task_api.TaskCacheDependencies.{
  TaskWorld, find_owned_task, on_redis, on_database, serve_row, serve_response,
}
use fastapi_task_api.TaskRoutes
use fastapi_task_api.TaskRoutes.{create_task, update_task}
use fastapi_task_api.TaskRoutes.Interleaving.{
  Setting, System, commit, select, serve, Steps, start, later,
}
use fastapi_task_api.TaskRoutes.Interleaving.Soundness.{IsValid, WasPossible}
use fastapi_task_api.TaskRoutes.Interleaving.Histories.{initial, answers-IsFromHistory}
use fastapi_task_api.TaskRoutes.Interleaving.Plans.{
  Reaches, writes_of_update, writes_of_delete, writes_of_create,
}
use fastapi_task_api.TaskRoutes.Interleaving.Routes.{writes-Reaches}
use fastapi_task_api.Tests.Json.{tagged, tagged_laws}
use fastapi_task_api.Tests.Tasks.{
  chores, done, done_update, db, settings, done_validated, rows_valid_lem,
}
use fastapi_task_api.Tests.TaskRoutes.{shopping, shopping-accepted}

abbrev setting : Setting
setting = record {
  redis = quiet;
  database = tables;
  json = tagged;
  laws = quiet_laws;
  tables = tables_laws;
  json_laws = tagged_laws;
  cache_settings = settings;
  sleeper = λ n s. s;
  expires = record { arrives = λ s k. inl refl; sleeps = λ n s k. inl refl };
  attempts_pos = omega arith;
  seconds_nonneg = omega arith;
}

abbrev idle : TaskWorld quiet tables
idle = record { redis_state = empty; db = db }

-- The table of tasks after the task was deleted.
abbrev emptied : Tables
emptied = record { rows = []; down = false }

emptied-IsValid : IsValid setting emptied
unfolding lookup
emptied-IsValid i r h = absurd (ground (arith, h))

selects : find_owned_task quiet tables (pos 2) (pos 1) idle ≡ (ok (some chores), idle)
unfolding find_owned_task on_database execute lookup
selects = refl

abbrev selecting : System quiet tables
selecting = record {
  world = idle;
  history = db ∷ [];
  selected = (pos 1, pos 2, some chores) ∷ [];
  answered = [];
}

abbrev deleted : System quiet tables
deleted = record selecting { world = record idle { db = emptied }; history = emptied ∷ db ∷ [] }

abbrev served : Result TaskResponse × TaskWorld quiet tables
served = serve_row quiet tables tagged settings (pos 1) (pos 2) (some chores) deleted.world

abbrev late : System quiet tables
late = record deleted { world = served.1; answered = (pos 1, pos 2, served.0) ∷ [] }

abbrev run :
    Steps quiet tables tagged settings (λ n s. s) (IsValid setting) (initial setting idle) late
run =
    later
      (later (later start (select (pos 1) (pos 2) (some chores) selects))
        (commit emptied emptied-IsValid))
      (serve (pos 1) (pos 2) (some chores) (inl refl))

served_chores : served.0 ≡ ok (response_of chores)
unfolding serve_row serve_response validate_response is_task_base is_title is_description
    is_priority try_redis on_redis set_task call
served_chores = refl

-- The task was deleted between the select and the answer.
answers-IsFromHistory_example :
    WasPossible setting (emptied ∷ db ∷ []) (pos 1) (pos 2) (some (response_of chores))
unfolding lookup
answers-IsFromHistory_example =
    answers-IsFromHistory setting idle late (λ k. refl) rows_valid_lem run (pos 1) (pos 2)
      (ok (response_of chores)) (inl (ap (λ r. (pos 1, pos 2, r)) (sym served_chores)))

writes-Reaches_example :
    Reaches setting
      (initial setting idle)
      (writes_of_update setting (pos 1) (pos 2) done_update db)
      (update_task quiet tables tagged settings (pos 1) (pos 2) done_update idle).1
    × Reaches setting
        (initial setting idle)
        (writes_of_delete setting (pos 1) (pos 2) db)
        (TaskRoutes.delete_task quiet tables tagged settings (pos 1) (pos 2) idle).1
    × Reaches setting
        (initial setting idle)
        (writes_of_create setting (pos 1) shopping db)
        (create_task quiet tables tagged settings (pos 1) shopping idle).1
writes-Reaches_example =
    writes-Reaches setting (initial setting idle) rows_valid_lem (pos 1) (pos 2) done done_update
      shopping done_validated shopping-accepted
