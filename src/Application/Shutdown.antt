-- ===== src/Application/Shutdown.antt =====
-- main.py: what is stopped, and in which order.
use fastapi_task_api.Base.{
  ℕ, suc, ◌||◌, ◌==◌, ◌≡◌, refl, Bool, true, false, ◌&&◌, not, Error, Result, ok, err, finally,
  List, [], ◌∷◌, if◌then◌else◌,
}
use fastapi_task_api.Config.{Settings, is_settings, external_service_circuit_breaker}
use fastapi_task_api.Config.Acceptance.{settings_build, IsBuilt}
use fastapi_task_api.RealtimeBroker
use fastapi_task_api.RealtimeBroker.{RedisRealtimeEventPublisher, realtime_events_channel}
use fastapi_task_api.RealtimeSubscriber
use fastapi_task_api.RealtimeSubscriber.{RedisRealtimeEventSubscriber}
use fastapi_task_api.ReconnectBackoff
use fastapi_task_api.CircuitBreaker.{CircuitBreaker}
use fastapi_task_api.Application.{
  Libraries, with_redis, Action, start_subscriber, wait_until_subscribed, open_http_client, serve,
  close_http_client, cancel_subscriber, end_subscriber, close_redis, dispose_engine, Outcomes,
  AppState, task_group, serve_with_client, run_application, lifespan, build_state, with_breaker,
}

abbrev number : Action → ℕ
number start_subscriber = 0
number wait_until_subscribed = 1
number open_http_client = 2
number serve = 3
number close_http_client = 4
number cancel_subscriber = 5
number end_subscriber = 6
number close_redis = 7
number dispose_engine = 8

-- How often the action was done.
abbrev pub times : Action → List Action → ℕ
times a [] = 0
times a (b ∷ actions) = if number a == number b then suc (times a actions) else times a actions

-- The second action was not done before the first.
abbrev pub is_first : Action → Action → List Action → Bool
is_first a b [] = true
is_first a b (c ∷ actions) =
    if number c == number b
    then false
    else if number c == number a
    then true
    else is_first a b actions

abbrev pub is_ok : Result (Unit {0}) → Bool
is_ok (ok _) = true
is_ok (err e) = false

abbrev pub once_if : Bool → ℕ
once_if b = if b then 1 else 0

abbrev pub IsOrderly : Outcomes → Result (Unit {0}) × List Action → Type 0
IsOrderly o (r, actions) =
    (times serve actions ≡ once_if (is_ok o.subscribed && is_ok o.opened))
    × (times close_http_client actions ≡ times serve actions)
    × (times cancel_subscriber actions ≡ once_if (is_ok o.subscribed))
    × (times end_subscriber actions ≡ 1)
    × (times close_redis actions ≡ 1)
    × (times dispose_engine actions ≡ once_if (is_ok o.closed_redis))
    × (is_first wait_until_subscribed serve actions ≡ true)
    × (is_first close_http_client cancel_subscriber actions
        ≡ (not (is_ok o.subscribed) || is_ok o.opened))
    × (is_first end_subscriber close_redis actions ≡ true)
    × (is_first close_redis dispose_engine actions ≡ true)
    × (is_ok r ≡ (
        is_ok o.subscribed
        && (is_ok o.opened
            && (is_ok o.served
                && (is_ok o.closed_client && (is_ok o.closed_redis && is_ok o.listened))))))

orderly :
    (subscribed opened served closed_client listened closed_redis : Result (Unit {0}))
    → let o : Outcomes = record {
      subscribed = subscribed;
      opened = opened;
      served = served;
      closed_client = closed_client;
      listened = listened;
      closed_redis = closed_redis;
    } in
      IsOrderly o (run_application o [])
unfolding run_application serve_with_client task_group finally
orderly (err e) opened served closed listened (ok _) =
    (refl, refl, refl, refl, refl, refl, refl, refl, refl, refl, refl)
orderly (err e) opened served closed listened (err e') =
    (refl, refl, refl, refl, refl, refl, refl, refl, refl, refl, refl)
orderly (ok _) (err e) served closed listened (ok _) =
    (refl, refl, refl, refl, refl, refl, refl, refl, refl, refl, refl)
orderly (ok _) (err e) served closed listened (err e') =
    (refl, refl, refl, refl, refl, refl, refl, refl, refl, refl, refl)
orderly (ok _) (ok _) (ok _) (ok _) (ok _) (ok _) =
    (refl, refl, refl, refl, refl, refl, refl, refl, refl, refl, refl)
orderly (ok _) (ok _) (ok _) (ok _) (err e) (ok _) =
    (refl, refl, refl, refl, refl, refl, refl, refl, refl, refl, refl)
orderly (ok _) (ok _) (ok _) (ok _) listened (err e₃) =
    (refl, refl, refl, refl, refl, refl, refl, refl, refl, refl, refl)
orderly (ok _) (ok _) (ok _) (err e₂) listened (ok _) =
    (refl, refl, refl, refl, refl, refl, refl, refl, refl, refl, refl)
orderly (ok _) (ok _) (ok _) (err e₂) listened (err e₃) =
    (refl, refl, refl, refl, refl, refl, refl, refl, refl, refl, refl)
orderly (ok _) (ok _) (err e₁) (ok _) listened (ok _) =
    (refl, refl, refl, refl, refl, refl, refl, refl, refl, refl, refl)
orderly (ok _) (ok _) (err e₁) (ok _) listened (err e₃) =
    (refl, refl, refl, refl, refl, refl, refl, refl, refl, refl, refl)
orderly (ok _) (ok _) (err e₁) (err e₂) listened (ok _) =
    (refl, refl, refl, refl, refl, refl, refl, refl, refl, refl, refl)
orderly (ok _) (ok _) (err e₁) (err e₂) listened (err e₃) =
    (refl, refl, refl, refl, refl, refl, refl, refl, refl, refl, refl)

breaker_built :
    (s : Settings) (subscriber : RedisRealtimeEventSubscriber)
    (publisher : RedisRealtimeEventPublisher) (breaker : Result CircuitBreaker)
    → IsBuilt breaker
    → (state : AppState) × (with_breaker s subscriber publisher breaker ≡ ok state)
breaker_built s subscriber publisher (ok breaker) built = (_, refl)
breaker_built s subscriber publisher (err e) built = absurd built

built_lem :
    (s : Settings) → is_settings s ≡ true → (state : AppState) × (with_redis s (ok tt) ≡ ok state)
unfolding RealtimeSubscriber.create ReconnectBackoff.create RealtimeBroker.create
built_lem s h = breaker_built s _ _ (external_service_circuit_breaker s) (settings_build s h).1

-- With settings that are accepted, `lifespan` is orderly, or the Redis client refuses its URL.
pub lifespan-IsOrderly :
    (libraries : Libraries) (s : Settings) (o : Outcomes)
    → is_settings s ≡ true
    → (libraries.from_url s.redis_url ≡ ok tt → IsOrderly o (lifespan libraries s o []))
      × ((e : Error)
          → libraries.from_url s.redis_url ≡ err e
          → lifespan libraries s o [] ≡ (err e, []))
unfolding lifespan build_state
lifespan-IsOrderly libraries s o accepted =
    let (state, built) = built_lem s accepted in
    (
      (λ usable.
          rw (usable, built)
            (orderly o.subscribed o.opened o.served o.closed_client o.listened o.closed_redis)),
      λ e unusable. rw unusable refl,
    )
