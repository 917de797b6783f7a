-- ===== src/TaskCache/Writes.antt =====
-- task_cache.py: what the writes and the wait leave in a coherent cache.
use fastapi_task_api.Base.{
  ℕ, zero, suc, ◌≡◌, false, Option, none, some, pure, arith, Bool-cases, inl, inr, if◌then◌else◌,
}
use fastapi_task_api.Base.Int.{ℤ, pos, pos_part, ◌≤ℤ◌, ltb_ℤ}
use fastapi_task_api.Base.Eq.{◌=?◌, text_eq}
use fastapi_task_api.Models.{TaskResponse}
use fastapi_task_api.Redis.{Redis}
use fastapi_task_api.Redis.Calls.{Returns, call_rule, bind_rule}
use fastapi_task_api.Redis.Laws.{Laws}
use fastapi_task_api.TaskCache.{
  TaskCache, Json, task_not_found_cache_marker, build_key, lookup_task, set_task,
  set_task_not_found, fill_rounds, wait_for_task_cache_fill, calculate_positive_ttl,
}
use fastapi_task_api.TaskCache.Coherence.{
  IsCoherent, Agrees, IsAnswer, lookup_sound, set-IsCoherent,
}

-- The JSON form reads back, and is not the marker.
pub record JsonLaws (json : Json) : Type 0 where
  pub validate-dump : (task : TaskResponse) → json.validate (json.dump task) ≡ some task
  pub dump-ne-marker :
      (task : TaskResponse) → (json.dump task =? task_not_found_cache_marker) ≡ false

-- Of a call that returns nothing.
abbrev pub IsAnyUnit : Unit {0} → Type 0
IsAnyUnit _ = Unit

module _ (redis : Redis) (laws : Laws redis) (json : Json)
    (Possible : ℤ → ℤ → Option TaskResponse → Type 0)
    (arrives : (s : redis.State)
      → IsCoherent redis laws json Possible s
      → IsCoherent redis laws json Possible (redis.arrive s)) where
  abbrev pub Coherent : redis.State → Type 0
  Coherent = IsCoherent redis laws json Possible

  -- A task that is a possible answer may be stored.
  pub set_task_sound :
      (jitter_generator : ℕ → ℕ → ℕ) (cache : TaskCache) (o : ℤ) (task : TaskResponse)
      (s : redis.State)
      → JsonLaws json
      → Possible o task.id (some task)
      → Coherent s
      → Coherent (set_task redis json jitter_generator cache o task s).1
        × Returns IsAnyUnit (set_task redis json jitter_generator cache o task s).0
  unfolding set_task
  set_task_sound jitter_generator cache o task s j e c =
      let v = json.dump task in
      let ex = calculate_positive_ttl jitter_generator cache in
      let agrees : Agrees redis laws json Possible v (Possible o task.id) =
        rw (j.dump-ne-marker task, j.validate-dump task) e in
      call_rule redis Coherent IsAnyUnit (redis.set (build_key o task.id) v ex) s (arrives s c)
        (set-IsCoherent redis laws json Possible o task.id v ex (redis.arrive s) agrees
          (arrives s c))
        tt

  -- The marker may be stored where no task is a possible answer.
  pub set_task_not_found_sound :
      (cache : TaskCache) (o i : ℤ) (s : redis.State)
      → Possible o i none
      → Coherent s
      → Coherent (set_task_not_found redis json cache o i s).1
        × Returns IsAnyUnit (set_task_not_found redis json cache o i s).0
  unfolding set_task_not_found
  set_task_not_found_sound cache o i s e c =
      call_rule redis Coherent IsAnyUnit
        (redis.set (build_key o i) task_not_found_cache_marker cache.negative_ttl_seconds) s
        (arrives s c)
        (set-IsCoherent redis laws json Possible o i task_not_found_cache_marker
          cache.negative_ttl_seconds (redis.arrive s) e (arrives s c))
        tt

  module _ (sleeper : ℕ → redis.State → redis.State)
      (sleeps : (n : ℕ) (s : redis.State) → Coherent s → Coherent (sleeper n s)) where
    fill_sound :
        (left : ℕ) (o i : ℤ) (delay : ℕ) (s : redis.State)
        → Coherent s
        → Coherent (fill_rounds redis json sleeper left o i delay s).1
          × Returns
              (IsAnswer redis laws json Possible o i)
              (fill_rounds redis json sleeper left o i delay s).0
    unfolding fill_rounds
    fill_sound zero o i delay s c = (c, λ hit. cc)
    fill_sound (suc left) o i delay s c =
        let answers = IsAnswer redis laws json Possible o i in
        let t = sleeper delay s in
        bind_rule Coherent answers answers
          (λ l. if l.cache_hit then pure l else fill_rounds redis json sleeper left o i delay)
          (λ l u d q. elim (Bool-cases l.cache_hit) [
            | inl hit ↦ rw hit (d, λ _. q hit)
            | inr missed ↦ rw missed (fill_sound left o i delay u d)
          ])
          (lookup_task redis json o i) t
          (lookup_sound redis laws json Possible arrives o i t (sleeps delay s c))

    -- If others' commands, during the sleeps too, keep the cache coherent: a wait with at least one
    -- attempt and no negative delay ends in a hit with a possible answer, in a miss, or in an
    -- exception of Redis, and leaves a coherent cache coherent.
    pub wait_sound :
        (o i attempts delay : ℤ) (s : redis.State)
        → pos 1 ≤ℤ attempts
        → pos 0 ≤ℤ delay
        → Coherent s
        → Coherent (wait_for_task_cache_fill redis json sleeper o i attempts delay s).1
          × Returns
              (IsAnswer redis laws json Possible o i)
              (wait_for_task_cache_fill redis json sleeper o i attempts delay s).0
    unfolding wait_for_task_cache_fill
    wait_sound o i attempts delay s h k c =
        let many : ltb_ℤ attempts (pos 1) ≡ false = ground arith in
        let long : ltb_ℤ delay (pos 0) ≡ false = ground arith in
        rw (many, long) (fill_sound (pos_part attempts) o i (pos_part delay) s c)
