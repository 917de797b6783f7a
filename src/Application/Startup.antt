-- ===== src/Application/Startup.antt =====
-- main.py and database.py: the statements of the modules, which run when they are imported, and the
-- start of `lifespan`, all with the settings of `get_settings`.
use fastapi_task_api.Base.{
  ◌≡◌, refl, sym, ap, ◌∙◌, Option, none, some, Result, ok, err, Error, Exec, pure, ◌>>=◌, List, [],
  arith,
}
use fastapi_task_api.Base.Returning.{bind_ok, bind_returns}
use fastapi_task_api.Base.Text.{Text}
use fastapi_task_api.Config.{Settings}
use fastapi_task_api.Config.Environment.{Environment, load, get_settings}
use fastapi_task_api.Config.Once.{settings_once, get_ok, load_get}
use fastapi_task_api.Middlewares.{CorsMiddleware, register_middlewares}
use fastapi_task_api.Application.{Libraries, Action, Outcomes, lifespan}
use fastapi_task_api.Application.Shutdown.{IsOrderly, lifespan-IsOrderly}

-- What the imported modules have set up.
pub record Program : Type 0 where
  -- `DATABASE_URL`, for the engine
  pub database_url : Text
  pub cors : CorsMiddleware

-- A call of a library, which does not touch the settings.
abbrev calling : Result (Unit {0}) → Exec (Option Settings) (Unit {0})
calling r s = (r, s)

-- main.py imports database.py first.
unfoldable pub import_program : Libraries → Environment → Exec (Option Settings) Program
import_program libraries env = do
  settings ← get_settings env
  _ ← calling (libraries.create_engine settings.database_url)
  for_cors ← get_settings env
  pure (record {
    database_url = settings.database_url;
    cors = register_middlewares for_cors.cors_allowed_origins;
  })

-- `lifespan` from its first line; how it ends, and its actions.
unfoldable pub start_program :
    Libraries → Environment → Outcomes → Exec (Option Settings) (Result (Unit {0}) × List Action)
start_program libraries env o = do
  settings ← get_settings env
  pure (lifespan libraries settings o [])

-- What `app` is set up with, from the settings.
abbrev pub with_settings : Settings → Program
with_settings settings = record {
  database_url = settings.database_url;
  cors = register_middlewares settings.cors_allowed_origins;
}

-- The rest of the imports, by how `create_engine` ends.
abbrev rest : Result (Unit {0}) → Environment → Settings → Exec (Option Settings) Program
rest engine env settings = do
  _ ← calling engine
  for_cors ← get_settings env
  pure (record {
    database_url = settings.database_url;
    cors = register_middlewares for_cors.cors_allowed_origins;
  })

rest_run :
    (engine : Result (Unit {0})) (env : Environment) (settings : Settings) (p : Program)
    → (rest engine env settings (some settings)).0 ≡ ok p
    → (engine ≡ ok tt)
      × (rest engine env settings (some settings) ≡ (ok (with_settings settings), some settings))
unfolding get_settings
rest_run (ok _) env settings p h = (refl, refl)
rest_run (err e) env settings p h = cc

import_run :
    (libraries : Libraries) (env : Environment) (p : Program)
    → (import_program libraries env none).0 ≡ ok p
    → (settings : Settings) × ((get_settings env none).0 ≡ ok settings)
      × (libraries.create_engine settings.database_url ≡ ok tt)
      × (import_program libraries env none ≡ (ok (with_settings settings), some settings))
unfolding import_program
import_run libraries env p h =
    let more =
      λ (settings : Settings). rest (libraries.create_engine settings.database_url) env settings in
    let (settings, returned) = bind_returns (get_settings env) more none p h in
    let run =
      bind_ok (get_settings env) more settings none returned
      ∙ ap (more settings) (get_ok env none settings returned) in
    let (usable, ended) =
      rest_run (libraries.create_engine settings.database_url) env settings p
        (ap (λ q. q.0) (sym run) ∙ h) in
    (settings, returned, usable, run ∙ ended)

start_run :
    (libraries : Libraries) (env : Environment) (o : Outcomes) (settings : Settings)
    → (start_program libraries env o (some settings)).0 ≡ ok (lifespan libraries settings o [])
unfolding start_program get_settings
start_run libraries env o settings = refl

-- When the program's modules have been imported, whose engine and CORS rules then have the settings
-- of the environment at that time, with a URL that `create_engine` accepts, `lifespan` reads these
-- settings too, whatever the environment has become. If `Redis.from_url` refuses the URL of these
-- settings, `lifespan` ends with that exception before it starts anything. Otherwise no other part
-- that it builds refuses its settings, and in whichever way the waiting, the client, the serving,
-- the subscriber and the closing end: the application serves, once, only after the subscriber has
-- subscribed and the client has opened; the client is closed if it was opened, and before the
-- subscriber is cancelled; the subscriber has ended, once, before the connection to Redis is closed,
-- once, and the engine is disposed of after that, unless the closing fails; no exception comes out
-- of it only if none of them raised one.
pub program_starts :
    (libraries : Libraries) (env later : Environment) (o : Outcomes) (p : Program)
    → (import_program libraries env none).0 ≡ ok p
    → (settings : Settings) × (load env ≡ ok settings)
      × (p ≡ with_settings settings)
      × (libraries.create_engine settings.database_url ≡ ok tt)
      × ((start_program libraries later o (import_program libraries env none).1).0
          ≡ ok (lifespan libraries settings o []))
      × (libraries.from_url settings.redis_url ≡ ok tt
          → IsOrderly o (lifespan libraries settings o []))
      × ((e : Error)
          → libraries.from_url settings.redis_url ≡ err e
          → lifespan libraries settings o [] ≡ (err e, []))
program_starts libraries env later o p imported =
    let (settings, returned, usable, run) = import_run libraries env p imported in
    let (orderly, refused) =
      lifespan-IsOrderly libraries settings o (settings_once [] env settings [] returned).1 in
    (
      settings,
      load_get env settings returned,
      ground (arith, run, imported),
      usable,
      ap (λ q. (start_program libraries later o q.1).0) run ∙ start_run libraries later o settings,
      orderly,
      refused,
    )
