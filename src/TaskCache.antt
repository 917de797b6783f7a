-- ===== src/TaskCache.antt =====
-- task_cache.py: class TaskCache. Pydantic's JSON form of a `TaskResponse` is a parameter, and so is
-- `asyncio.sleep`, which says what happens to the server's state in the given number of clock ticks.
pub mod Keys
pub mod Coherence
pub mod Expiry
pub mod Writes
use fastapi_task_api.Base.{
  ℕ, zero, suc, ◌+◌, ◌++◌, ◌∷◌, Bool, true, false, Option, none, some, Result, ok, err, value_error,
  Exec, pure, raise, ◌>>=◌, ◌>>◌, if◌then◌else◌,
}
use fastapi_task_api.Base.Int.{ℤ, pos, pos_part, ltb_ℤ}
use fastapi_task_api.Base.Text.{Text, codes, str}
use fastapi_task_api.Base.Eq.{◌=?◌, text_eq}
use fastapi_task_api.Models.{TaskResponse}
use fastapi_task_api.Redis.{Redis, call}

abbrev pub task_not_found_cache_marker : Text
task_not_found_cache_marker = codes "__task_not_found__"

pub record TaskCacheLookup : Type 0 where
  pub cache_hit : Bool
  pub task : Option TaskResponse

pub record TaskCache : Type 0 where
  pub ttl_seconds : ℕ
  pub negative_ttl_seconds : ℕ
  pub ttl_jitter_seconds : ℕ

unfoldable pub create : ℤ → ℤ → ℤ → Result TaskCache
create ttl_seconds negative_ttl_seconds ttl_jitter_seconds =
    if ltb_ℤ ttl_seconds (pos 1)
    then err (value_error "ttl_seconds must be at least 1")
    else if ltb_ℤ negative_ttl_seconds (pos 1)
    then err (value_error "negative_ttl_seconds must be at least 1")
    else if ltb_ℤ ttl_jitter_seconds (pos 0)
    then err (value_error "ttl_jitter_seconds cannot be negative")
    else ok (record {
      ttl_seconds = pos_part ttl_seconds;
      negative_ttl_seconds = pos_part negative_ttl_seconds;
      ttl_jitter_seconds = pos_part ttl_jitter_seconds;
    })

-- `_build_key`
unfoldable pub build_key : (owner_id task_id : ℤ) → Text
build_key owner_id task_id = codes "task:" ++ (str owner_id ++ (b':' ∷ str task_id))

-- `model_dump_json` and `model_validate_json`, which raises `ValidationError` for `none`.
pub record Json : Type 0 where
  pub dump : TaskResponse → Text
  pub validate : Text → Option TaskResponse

abbrev pub miss : TaskCacheLookup
miss = record { cache_hit = false; task = none }

-- `_calculate_positive_ttl`
unfoldable pub calculate_positive_ttl : (ℕ → ℕ → ℕ) → TaskCache → ℕ
calculate_positive_ttl jitter_generator cache =
    cache.ttl_seconds + jitter_generator 0 cache.ttl_jitter_seconds

module _ (redis : Redis) (json : Json) where
  open redis use {State}

  -- The rest of `lookup_task` for a value that is no marker: `model_validate_json` gave `task`.
  unfoldable pub read_json : Text → Option TaskResponse → Exec State TaskCacheLookup
  unfolding call
  read_json cache_key (some task) s = (ok (record { cache_hit = true; task = some task }), s)
  read_json cache_key none s = (call redis (redis.delete cache_key) >> pure miss) s

  -- The rest of `lookup_task` for what GET replied.
  unfoldable pub read_reply : Text → Option Text → Exec State TaskCacheLookup
  unfolding read_json
  read_reply cache_key none s = (ok miss, s)
  read_reply cache_key (some cached_value) s =
      if cached_value =? task_not_found_cache_marker
      then (ok (record { cache_hit = true; task = none }), s)
      else read_json cache_key (json.validate cached_value) s

  unfoldable pub lookup_task : (owner_id task_id : ℤ) → Exec State TaskCacheLookup
  unfolding call read_reply
  lookup_task owner_id task_id = do
    cached_value ← call redis (redis.get (build_key owner_id task_id))
    read_reply (build_key owner_id task_id) cached_value

  unfoldable pub get_task : (owner_id task_id : ℤ) → Exec State (Option TaskResponse)
  unfolding lookup_task
  get_task owner_id task_id = do lookup ← lookup_task owner_id task_id; pure lookup.task

  unfoldable pub set_task :
      (ℕ → ℕ → ℕ) → TaskCache → (owner_id : ℤ) → TaskResponse → Exec State (Unit {0})
  unfolding call
  set_task jitter_generator cache owner_id task = call redis (
      redis.set (build_key owner_id task.id) (json.dump task)
        (calculate_positive_ttl jitter_generator cache))

  unfoldable pub set_task_not_found : TaskCache → (owner_id task_id : ℤ) → Exec State (Unit {0})
  unfolding call
  set_task_not_found cache owner_id task_id = call redis (
      redis.set (build_key owner_id task_id) task_not_found_cache_marker cache.negative_ttl_seconds)

  unfoldable pub delete_task : (owner_id task_id : ℤ) → Exec State (Unit {0})
  unfolding call
  delete_task owner_id task_id =
      call redis (redis.delete (build_key owner_id task_id)) >>= λ _. pure tt

  module _ (sleeper : ℕ → State → State) where
    -- The loop of `wait_for_task_cache_fill` with `left` rounds to go.
    pub fill_rounds :
        (left : ℕ) (owner_id task_id : ℤ) (delay_seconds : ℕ) → Exec State TaskCacheLookup
    fill_rounds zero owner_id task_id delay_seconds s = (ok miss, s)
    fill_rounds (suc left) owner_id task_id delay_seconds s =
        let rest = fill_rounds left owner_id task_id delay_seconds in
        (do
          cache_lookup ← lookup_task owner_id task_id
          if cache_lookup.cache_hit then pure cache_lookup else rest)
          (sleeper delay_seconds s)

    unfoldable pub wait_for_task_cache_fill :
        (owner_id task_id attempts delay_seconds : ℤ) → Exec State TaskCacheLookup
    wait_for_task_cache_fill owner_id task_id attempts delay_seconds =
        if ltb_ℤ attempts (pos 1)
        then raise (value_error "attempts must be at least 1")
        else if ltb_ℤ delay_seconds (pos 0)
        then raise (value_error "delay_seconds cannot be negative")
        else fill_rounds (pos_part attempts) owner_id task_id (pos_part delay_seconds)
