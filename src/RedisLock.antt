-- ===== src/RedisLock.antt =====
-- redis_lock.py: class RedisLock. `token_generator` (`uuid4().hex`) gives the token as an argument.
pub mod Exclusion
use fastapi_task_api.Base.{
  ℕ, Bool, true, false, not, Option, none, some, Result, ok, err, value_error, Exec, pure, ◌>>=◌,
  ◌==◌, if◌then◌else◌,
}
use fastapi_task_api.Base.Int.{ℤ, pos, pos_part, ltb_ℤ}
use fastapi_task_api.Base.Text.{Text}
use fastapi_task_api.Base.Eq.{◌=?◌, text_eq}
use fastapi_task_api.Redis.{Redis, call}

pub record RedisLock : Type 0 where
  pub ttl_seconds : ℕ

unfoldable pub create : ℤ → Result RedisLock
create ttl_seconds =
    if ltb_ℤ ttl_seconds (pos 1)
    then err (value_error "ttl_seconds must be at least 1")
    else ok (record { ttl_seconds = pos_part ttl_seconds })

-- Lua's `==` of a reply and an argument: a missing key is `false`, which equals no text.
abbrev pub holds : Option Text → Text → Bool
holds none token = false
holds (some v) token = v =? token

module _ (redis : Redis) where
  open redis use {State}

  -- `RELEASE_LOCK_SCRIPT`
  unfoldable pub release_lock_script : Text → Text → State → ℕ × State
  release_lock_script key token s =
      let (v, s') = redis.get key s in if holds v token then redis.delete key s' else (0, s')

  unfoldable pub acquire : RedisLock → Text → Text → Exec State (Option Text)
  unfolding call
  acquire lock lock_key lock_token = do
    acquired ← call redis (redis.set_nx lock_key lock_token lock.ttl_seconds)
    pure (if acquired then some lock_token else none)

  unfoldable pub release : Text → Text → Exec State Bool
  unfolding call release_lock_script
  release lock_key lock_token = do
    deleted_count ← call redis (release_lock_script lock_key lock_token)
    pure (not (deleted_count == 0))
