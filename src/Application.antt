-- ===== src/Application.antt =====
-- main.py: what `lifespan` builds, and the order in which it starts and stops the parts. How each
-- awaited call ends is given; an exception group stands for the exception in it. Whether the client
-- libraries accept a URL is a parameter.
pub mod Shutdown
pub mod Startup
use fastapi_task_api.Base.{
  ℕ, Result, ok, err, Exec, pure, raise, continue, ◌>>=◌, ◌>>◌, finally, List, [], ◌∷◌, ◌++◌,
}
use fastapi_task_api.Base.Int.{pos}
use fastapi_task_api.Base.Text.{Text}
use fastapi_task_api.CircuitBreaker.{CircuitBreaker}
use fastapi_task_api.Config.{
  Settings, seconds, external_service_circuit_breaker, fallback_login_rate_limiter,
}
use fastapi_task_api.ConnectionManager
use fastapi_task_api.ConnectionManager.{ConnectionManager}
use fastapi_task_api.RateLimiting.{FixedWindowRateLimiter}
use fastapi_task_api.RealtimeBroker
use fastapi_task_api.RealtimeBroker.{RedisRealtimeEventPublisher, realtime_events_channel}
use fastapi_task_api.RealtimeSubscriber
use fastapi_task_api.RealtimeSubscriber.{RedisRealtimeEventSubscriber}

-- `Redis.from_url` of redis-py and `create_engine` of SQLAlchemy, which raise for a URL that they cannot
-- use.
pub record Libraries : Type 0 where
  pub from_url : Text → Result (Unit {0})
  pub create_engine : Text → Result (Unit {0})

-- `app.state`, and the subscriber.
pub record AppState : Type 0 where
  pub connection_manager : ConnectionManager
  pub realtime_subscriber : RedisRealtimeEventSubscriber
  pub realtime_event_publisher : RedisRealtimeEventPublisher
  pub fallback_login_limiter : FixedWindowRateLimiter
  pub circuit_breaker : CircuitBreaker

abbrev pub with_breaker :
    Settings
    → RedisRealtimeEventSubscriber
    → RedisRealtimeEventPublisher
    → Result CircuitBreaker
    → Result AppState
with_breaker settings subscriber publisher (err e) = err e
with_breaker settings subscriber publisher (ok breaker) = ok (record {
  connection_manager = ConnectionManager.create;
  realtime_subscriber = subscriber;
  realtime_event_publisher = publisher;
  fallback_login_limiter = fallback_login_rate_limiter settings;
  circuit_breaker = breaker;
})

abbrev pub with_publisher :
    Settings → RedisRealtimeEventSubscriber → Result RedisRealtimeEventPublisher → Result AppState
with_publisher settings subscriber (err e) = err e
with_publisher settings subscriber (ok publisher) =
    with_breaker settings subscriber publisher (external_service_circuit_breaker settings)

abbrev pub with_subscriber : Settings → Result RedisRealtimeEventSubscriber → Result AppState
with_subscriber settings (err e) = err e
with_subscriber settings (ok subscriber) =
    with_publisher settings subscriber (RealtimeBroker.create realtime_events_channel)

-- What follows `Redis.from_url`.
abbrev pub with_redis : Settings → Result (Unit {0}) → Result AppState
with_redis settings (err e) = err e
with_redis settings (ok _) =
    with_subscriber settings
      (RealtimeSubscriber.create realtime_events_channel (pos (seconds 1)) (pos (seconds 30)))

-- The parts, in the order in which `lifespan` builds them.
unfoldable pub build_state : Libraries → Settings → Result AppState
build_state libraries settings = with_redis settings (libraries.from_url settings.redis_url)

pub data Action : Type 0 where
  start_subscriber wait_until_subscribed open_http_client serve close_http_client : Action
  cancel_subscriber end_subscriber close_redis dispose_engine : Action

-- How the awaited calls, and the time in which the application serves, end.
pub record Outcomes : Type 0 where
  -- `wait_for`, which may raise `TimeoutError`
  pub subscribed : Result (Unit {0})
  pub opened : Result (Unit {0})
  pub served : Result (Unit {0})
  pub closed_client : Result (Unit {0})
  -- the subscriber's own exception, if it has one
  pub listened : Result (Unit {0})
  pub closed_redis : Result (Unit {0})

abbrev pub act : Action → Result (Unit {0}) → Exec (List Action) (Unit {0})
act a r actions = (r, actions ++ a ∷ [])

-- A task group ends when its task has ended, and raises the body's exception or the task's.
abbrev pub joined :
    Result (Unit {0}) → Result (Unit {0}) × List Action → Result (Unit {0}) × List Action
joined listened (ok _, actions) = act end_subscriber listened actions
joined listened (err e, actions) = act end_subscriber (err e) actions

unfoldable pub task_group :
    Result (Unit {0}) → Exec (List Action) (Unit {0}) → Exec (List Action) (Unit {0})
task_group listened body actions = joined listened (body actions)

-- `async with httpx.AsyncClient(…)` around the `yield`.
unfoldable pub serve_with_client : Outcomes → Exec (List Action) (Unit {0})
serve_with_client o =
    act open_http_client o.opened
    >> finally (act serve o.served) (act close_http_client o.closed_client)

unfoldable pub run_application : Outcomes → Exec (List Action) (Unit {0})
run_application o =
    finally
      (task_group o.listened (
        act start_subscriber (ok tt)
        >> act wait_until_subscribed o.subscribed
        >> finally (serve_with_client o) (act cancel_subscriber (ok tt))))
      (act close_redis o.closed_redis >> act dispose_engine (ok tt))

abbrev pub run_built : Outcomes → Result AppState → Exec (List Action) (Unit {0})
run_built o (err e) = raise e
run_built o (ok state) = run_application o

unfoldable pub lifespan : Libraries → Settings → Outcomes → Exec (List Action) (Unit {0})
lifespan libraries settings o = run_built o (build_state libraries settings)
