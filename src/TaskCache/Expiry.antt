-- ===== src/TaskCache/Expiry.antt =====
-- task_cache.py: a server on which keys of the cache only expire, between the calls and while the
-- program sleeps.
use fastapi_task_api.Base.{ℕ, ◌≡◌, sym, ◌∙◌, ◌⊎◌, inl, inr, Option, none, some, arith}
use fastapi_task_api.Base.Int.{ℤ}
use fastapi_task_api.Base.Text.{Text}
use fastapi_task_api.Models.{TaskResponse}
use fastapi_task_api.Redis.{Redis}
use fastapi_task_api.Redis.Laws.{Laws}
use fastapi_task_api.TaskCache.{Json, build_key}
use fastapi_task_api.TaskCache.Coherence.{IsCoherent}

pub still : {x y : Option Text} {v : Text} → (y ≡ x) ⊎ (y ≡ none) → y ≡ some v → x ≡ some v
still (inl same) h = sym same ∙ h
still (inr gone) h = absurd (ground (arith, gone, h))

module _ (redis : Redis) (laws : Laws redis) where
  -- Nobody else writes to the cache: between the calls, and while the program sleeps, keys only expire.
  pub record OnlyExpires (sleeper : ℕ → redis.State → redis.State) : Type 0 where
    pub arrives :
        (s : redis.State) (k : Text)
        → (laws.value (redis.arrive s) k ≡ laws.value s k) ⊎ (laws.value (redis.arrive s) k ≡ none)
    pub sleeps :
        (n : ℕ) (s : redis.State) (k : Text)
        → (laws.value (sleeper n s) k ≡ laws.value s k) ⊎ (laws.value (sleeper n s) k ≡ none)

  pub expired-IsCoherent :
      (json : Json) (Possible : ℤ → ℤ → Option TaskResponse → Type 0) (s t : redis.State)
      → ((k : Text) → (laws.value t k ≡ laws.value s k) ⊎ (laws.value t k ≡ none))
      → IsCoherent redis laws json Possible s
      → IsCoherent redis laws json Possible t
  expired-IsCoherent json Possible s t kept c = record {
    entry = λ o i v h. c.entry o i v (still (kept (build_key o i)) h);
  }
