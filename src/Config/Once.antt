-- ===== src/Config/Once.antt =====
-- config.py: the settings are read once, and what is read is accepted.
use fastapi_task_api.Base.{
  ◌≡◌, refl, sym, subst, Bool, true, false, ◌&&◌, Option, none, some, Result, ok, err, List, [],
  ◌∷◌, All, arith, Bool-cases, inl, inr,
}
use fastapi_task_api.Base.Int.{ℤ}
use fastapi_task_api.Base.Text.{Text}
use fastapi_task_api.Config.{
  Settings, is_settings, is_external_service, is_cache, is_login, is_between, is_positive_to,
  seconds,
}
use fastapi_task_api.Config.Environment.{
  Environment, default, fill, is_given, is_external_service_given, is_cache_given, is_login_given,
  is_accepted, keyed, load, remember, get_settings,
}

given :
    (test : ℤ → Bool) (d : ℤ) (o : Option ℤ)
    → test d ≡ true
    → is_given test o ≡ true
    → test (default d o) ≡ true
given test d none h g = h
given test d (some v) h g = g

-- A test of a given value, and the rest of the tests.
and_given :
    (test : ℤ → Bool) (d : ℤ) (o : Option ℤ) (b b' : Bool)
    → test d ≡ true
    → (b ≡ true → b' ≡ true)
    → (is_given test o && b) ≡ true
    → (test (default d o) && b') ≡ true
and_given test d o b b' h rest g = ground (arith, given test d o h)

fill_external :
    (key : Text) (env : Environment)
    → is_external_service_given env ≡ true
    → is_external_service (fill key env) ≡ true
unfolding is_external_service_given is_external_service fill is_between is_positive_to
fill_external key env = and_given (is_between 1 5) _ env.external_service_max_attempts _ _ refl (
    and_given (is_between 0 (seconds 10)) _ env.external_service_base_delay _ _ refl (
      and_given (is_between 0 (seconds 30)) _ env.external_service_max_delay _ _ refl (
        and_given (is_positive_to (seconds 60)) _ env.external_service_total_timeout _ _ refl (
          and_given (is_between 1 20) _ env.external_service_failure_threshold _ _ refl
            (given (is_positive_to (seconds 300)) _ env.external_service_recovery_timeout refl)))))

fill_cache :
    (key : Text) (env : Environment) → is_cache_given env ≡ true → is_cache (fill key env) ≡ true
unfolding is_cache_given is_cache fill is_between is_positive_to
fill_cache key env = and_given (is_between 1 86400) _ env.task_cache_ttl_seconds _ _ refl (
    and_given (is_between 1 300) _ env.task_negative_cache_ttl_seconds _ _ refl (
      and_given (is_between 0 3600) _ env.task_cache_ttl_jitter_seconds _ _ refl (
        and_given (is_between 1 60) _ env.task_cache_lock_ttl_seconds _ _ refl (
          and_given (is_between 1 20) _ env.task_cache_lock_wait_attempts _ _ refl
            (given (is_positive_to (seconds 1)) _ env.task_cache_lock_wait_seconds refl)))))

fill_login :
    (key : Text) (env : Environment) → is_login_given env ≡ true → is_login (fill key env) ≡ true
unfolding is_login_given is_login fill is_between
fill_login key env = and_given (is_between 1 100) _ env.login_rate_limit _ _ refl (
    and_given (is_between 1 3600) _ env.login_rate_window_seconds _ _ refl
      (given (is_between 1 300) _ env.websocket_ticket_ttl_seconds refl))

and_map :
    (a b a' b' : Bool)
    → (a ≡ true → a' ≡ true)
    → (b ≡ true → b' ≡ true)
    → (a && b) ≡ true
    → (a' && b') ≡ true
and_map true true a' b' f g h = ground (arith, f refl, g refl)
and_map true false a' b' f g h = cc
and_map false b a' b' f g h = cc

fill_token :
    (key : Text) (env : Environment)
    → is_given (is_between 1 1440) env.access_token_expire_minutes ≡ true
    → is_between 1 1440 (fill key env).access_token_expire_minutes ≡ true
unfolding fill is_between
fill_token key env = given (is_between 1 1440) _ env.access_token_expire_minutes refl

-- The defaults are within the bounds of their fields.
fill_accepted :
    (key : Text) (env : Environment) → is_accepted env ≡ true → is_settings (fill key env) ≡ true
unfolding is_accepted is_settings
fill_accepted key env = and_map _ _ _ _ (fill_external key env) (
    and_map _ _ _ _ (fill_cache key env)
      (and_map _ _ _ _ (fill_login key env) (fill_token key env)))

-- Settings that are remembered are accepted.
abbrev IsAccepted : Option Settings → Type 0
IsAccepted none = Unit
IsAccepted (some settings) = is_settings settings ≡ true

keyed-IsAccepted : (key : Option Text) (env : Environment) → IsAccepted (remember (keyed key env)).1
keyed-IsAccepted none env = tt
keyed-IsAccepted (some key) env = elim (Bool-cases (is_accepted env)) [
  | inl accepted ↦ rw accepted (fill_accepted key env accepted)
  | inr refused ↦ rw refused tt
]

get-IsAccepted :
    (env : Environment) (s : Option Settings) → IsAccepted s → IsAccepted (get_settings env s).1
unfolding get_settings load
get-IsAccepted env none h = keyed-IsAccepted env.jwt_secret_key env
get-IsAccepted env (some settings) h = h

-- What calls of `get_settings` one after another return, each in an environment of its own.
abbrev pub results : List Environment → Option Settings → List (Result Settings)
results [] s = []
results (env ∷ envs) s = (get_settings env s).0 ∷ results envs (get_settings env s).1

-- What is remembered after them.
abbrev pub remembered : List Environment → Option Settings → Option Settings
remembered [] s = s
remembered (env ∷ envs) s = remembered envs (get_settings env s).1

remembered-IsAccepted :
    (envs : List Environment) (s : Option Settings) → IsAccepted s → IsAccepted (remembered envs s)
remembered-IsAccepted [] s h = h
remembered-IsAccepted (env ∷ envs) s h =
    remembered-IsAccepted envs (get_settings env s).1 (get-IsAccepted env s h)

remember_ok :
    (r : Result Settings) (settings : Settings)
    → (remember r).0 ≡ ok settings
    → (remember r).1 ≡ some settings
remember_ok (ok settings') settings h = ground arith
remember_ok (err e) settings h = cc

pub get_ok :
    (env : Environment) (s : Option Settings) (settings : Settings)
    → (get_settings env s).0 ≡ ok settings
    → (get_settings env s).1 ≡ some settings
unfolding get_settings
get_ok env none settings h = remember_ok (load env) settings h
get_ok env (some settings') settings h = ground arith

remember_load :
    (r : Result Settings) (settings : Settings) → (remember r).0 ≡ ok settings → r ≡ ok settings
remember_load (ok settings') settings h = h
remember_load (err e) settings h = cc

pub load_get :
    (env : Environment) (settings : Settings)
    → (get_settings env none).0 ≡ ok settings
    → load env ≡ ok settings
unfolding get_settings
load_get env settings h = remember_load (load env) settings h

results-some :
    (envs : List Environment) (settings : Settings)
    → All (λ r. r ≡ ok settings) (results envs (some settings))
unfolding get_settings
results-some [] settings = tt
results-some (env ∷ envs) settings = (refl, results-some envs settings)

-- Once a call of `get_settings` has returned, whatever calls came before it, every later call returns
-- the same settings, also when the environment has changed or would be refused. These settings are
-- within the bounds of all fields, defaults included.
pub settings_once :
    (earlier : List Environment) (env : Environment) (settings : Settings)
    (later : List Environment)
    → let s = remembered earlier none in
      (get_settings env s).0 ≡ ok settings
      → All (λ r. r ≡ ok settings) (results later (get_settings env s).1)
        × (is_settings settings ≡ true)
settings_once earlier env settings later returned =
    let s = remembered earlier none in
    let kept = get_ok env s settings returned in
    (
      subst (λ t. All (λ r. r ≡ ok settings) (results later t)) (sym kept)
          (results-some later settings),
      subst IsAccepted kept (get-IsAccepted env s (remembered-IsAccepted earlier none tt)),
    )
