-- ===== src/Redis/Laws.antt =====
-- The documented behaviour of the Redis commands: which value a key has after each of them.
use fastapi_task_api.Base.{ℕ, ◌+◌, ◌≡◌, Bool, true, false, Option, none, some, if◌then◌else◌}
use fastapi_task_api.Base.Int.{ℤ, pos}
use fastapi_task_api.Base.Text.{Text}
use fastapi_task_api.Base.Eq.{◌=?◌, text_eq}
use fastapi_task_api.Redis.{Redis}

abbrev pub is_none {ℓ} : {A : Type ℓ} → Option A → Bool
is_none none = true
is_none (some a) = false

pub record Laws (redis : Redis) : Type 0 where
  -- the text that a key holds, if it is there and has not expired
  pub value : redis.State → Text → Option Text
  pub get_reply : (k : Text) (s : redis.State) → (redis.get k s).0 ≡ value s k
  pub get_value : (k : Text) (s : redis.State) (j : Text) → value (redis.get k s).1 j ≡ value s j
  pub set_value :
      (k v : Text) (ex : ℕ) (s : redis.State) (j : Text)
      → value (redis.set k v ex s).1 j ≡ (if k =? j then some v else value s j)
  pub set_nx_reply :
      (k v : Text) (ex : ℕ) (s : redis.State) → (redis.set_nx k v ex s).0 ≡ is_none (value s k)
  pub set_nx_value :
      (k v : Text) (ex : ℕ) (s : redis.State) (j : Text)
      → value (redis.set_nx k v ex s).1 j
        ≡ (if k =? j then (if is_none (value s k) then some v else value s k) else value s j)
  pub delete_reply :
      (k : Text) (s : redis.State) → (redis.delete k s).0 ≡ (if is_none (value s k) then 0 else 1)
  pub delete_value :
      (k : Text) (s : redis.State) (j : Text)
      → value (redis.delete k s).1 j ≡ (if k =? j then none else value s j)
  pub getdel_reply : (k : Text) (s : redis.State) → (redis.getdel k s).0 ≡ value s k
  pub getdel_value :
      (k : Text) (s : redis.State) (j : Text)
      → value (redis.getdel k s).1 j ≡ (if k =? j then none else value s j)

-- The commands of the rate limiter's script, on keys that hold a counter.
pub record CounterLaws (redis : Redis) : Type 0 where
  -- the counter at a key, 0 if the key is not there
  pub counter : redis.State → Text → ℕ
  -- the seconds left to a key
  pub remaining : redis.State → Text → ℤ
  pub incr_reply : (k : Text) (s : redis.State) → (redis.incr k s).0 ≡ counter s k + 1
  pub incr_counter :
      (k : Text) (s : redis.State) (j : Text)
      → counter (redis.incr k s).1 j ≡ (if k =? j then counter s k + 1 else counter s j)
  pub incr_remaining :
      (k : Text) (s : redis.State) (j : Text)
      → (counter s j ≡ 0 → ⊥)
      → remaining (redis.incr k s).1 j ≡ remaining s j
  pub expire_counter :
      (k : Text) (ex : ℕ) (s : redis.State) (j : Text)
      → counter (redis.expire k ex s).1 j ≡ counter s j
  pub expire_remaining :
      (k : Text) (ex : ℕ) (s : redis.State)
      → (counter s k ≡ 0 → ⊥)
      → remaining (redis.expire k ex s).1 k ≡ pos ex
  pub ttl_reply : (k : Text) (s : redis.State) → (redis.ttl k s).0 ≡ remaining s k
  pub ttl_counter :
      (k : Text) (s : redis.State) (j : Text) → counter (redis.ttl k s).1 j ≡ counter s j
  pub ttl_remaining :
      (k : Text) (s : redis.State) (j : Text) → remaining (redis.ttl k s).1 j ≡ remaining s j
