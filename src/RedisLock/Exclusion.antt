-- ===== src/RedisLock/Exclusion.antt =====
-- redis_lock.py: at most one holder, and only the holder's token releases the lock.
use fastapi_task_api.Base.{
  ℕ, ◌≡◌, ◌≢◌, refl, Bool, true, false, not, none, some, ok, err, List, [], ◌∷◌, All, if◌then◌else◌,
  arith, ◌+◌, ◌∙◌,
}
use fastapi_task_api.Base.Text.{Text}
use fastapi_task_api.Base.Eq.{◌=?◌, text_eq}
use fastapi_task_api.Base.Dict.{=?_refl}
use fastapi_task_api.Redis.{Redis, delivered}
use fastapi_task_api.Redis.Laws.{Laws, is_none}
use fastapi_task_api.RedisLock.{RedisLock, holds, release_lock_script, acquire, release}

-- What the clients of a lock call.
pub data Call : Type 0 where
  acquiring releasing : Text → Call

-- The tokens of the list do not release this one.
abbrev pub NotReleasing : Text → Call → Type 0
NotReleasing token (acquiring t) = Unit
NotReleasing token (releasing t) = t ≢ token

module _ (redis : Redis) (laws : Laws redis) (lock : RedisLock) (key : Text) where
  open redis use {State}
  open laws use {value}

  -- The lock was granted.
  abbrev pub granted : Call → State → Bool
  granted (acquiring t) s = elim (acquire redis lock key t s).0 [
    | ok r ↦ not (is_none r)
    | err e ↦ false
  ]
  granted (releasing t) s = false

  abbrev pub after : Call → State → State
  after (acquiring t) s = (acquire redis lock key t s).1
  after (releasing t) s = (release redis key t s).1

  pub script_value :
      (token : Text) (s : State) (j : Text)
      → value (release_lock_script redis key token s).1 j ≡ (
          if key =? j then (if holds (value s key) token then none else value s key) else value s j)
  unfolding release_lock_script
  script_value token s j = ground (
    arith,
    laws.get_reply key s,
    laws.get_value key s j,
    laws.get_value key s key,
    laws.delete_value key (redis.get key s).1 j,
    text_eq.beq_iff key j,
  )

  script_reply :
      (token : Text) (s : State)
      → (release_lock_script redis key token s).0 ≡ (if holds (value s key) token then 1 else 0)
  unfolding release_lock_script
  script_reply token s = ground (
    arith,
    laws.get_reply key s,
    laws.get_value key s key,
    laws.delete_reply key (redis.get key s).1,
  )

  acquire_held :
      (t v : Text) (s : State)
      → value (redis.arrive s) key ≡ some v
      → (granted (acquiring t) s ≡ false) × (value (after (acquiring t) s) key ≡ some v)
  unfolding acquire
  acquire_held t v s h =
      let s' = redis.arrive s in
      ground (
        arith,
        laws.set_nx_reply key t lock.ttl_seconds s',
        laws.set_nx_value key t lock.ttl_seconds s' key,
        =?_refl key,
      )

  acquire_free :
      (t : Text) (s : State)
      → granted (acquiring t) s ≡ true
      → value (after (acquiring t) s) key ≡ some t
  unfolding acquire
  acquire_free t s h =
      let s' = redis.arrive s in
      ground (
        arith,
        laws.set_nx_reply key t lock.ttl_seconds s',
        laws.set_nx_value key t lock.ttl_seconds s' key,
        =?_refl key,
      )

  release_held :
      (t v : Text) (s : State)
      → t ≢ v
      → value (redis.arrive s) key ≡ some v
      → value (after (releasing t) s) key ≡ some v
  unfolding release
  release_held t v s ne h =
      let s' = redis.arrive s in
      ground (arith, script_value t s' key, =?_refl key, text_eq.beq_iff v t)

  -- The number of grants in a run of calls.
  pub grants : List Call → State → ℕ
  grants [] s = 0
  grants (c ∷ calls) s = (if granted c s then 1 else 0) + grants calls (after c s)

  held_excludes :
      (calls : List Call) (v : Text) (s : State)
      → ((s : State) → value (redis.arrive s) key ≡ value s key)
      → value s key ≡ some v
      → All (NotReleasing v) calls
      → grants calls s ≡ 0
  unfolding grants
  held_excludes [] v s lives held others = refl
  held_excludes (acquiring t ∷ calls) v s lives held others =
      let (refused, kept) = acquire_held t v s (lives s ∙ held) in
      rw refused (omega (arith, held_excludes calls v (after (acquiring t) s) lives kept others.1))
  held_excludes (releasing t ∷ calls) v s lives held others =
      let kept = release_held t v s others.0 (lives s ∙ held) in
      omega (arith, held_excludes calls v (after (releasing t) s) lives kept others.1)

  -- After a grant, any run of calls in which nobody releases by the granted token has no further
  -- grant, whatever the network does, as long as the key neither expires nor is written by others.
  pub lock_exclusive :
      (t : Text) (s : State) (calls : List Call)
      → ((s : State) → value (redis.arrive s) key ≡ value s key)
      → granted (acquiring t) s ≡ true
      → All (NotReleasing t) calls
      → grants calls (after (acquiring t) s) ≡ 0
  lock_exclusive t s calls lives grant others =
      held_excludes calls t (after (acquiring t) s) lives (acquire_free t s grant) others

  -- A release by a token that the key does not hold when the command arrives, because the lock
  -- expired or went to another client, changes no key and does not return True. A release by the
  -- token that it holds, which the network delivers, returns True and frees this key alone.
  pub release_own :
      (t : Text) (s : State)
      → (holds (value (redis.arrive s) key) t ≡ false
          → ((j : Text) → value (after (releasing t) s) j ≡ value (redis.arrive s) j)
            × ((release redis key t s).0 ≢ ok true))
        × (value (redis.arrive s) key ≡ some t
            → redis.fault s ≡ delivered
            → ((release redis key t s).0 ≡ ok true)
              × ((j : Text)
                  → value (after (releasing t) s) j
                    ≡ (if key =? j then none else value (redis.arrive s) j)))
  unfolding release
  release_own t s =
      let s' = redis.arrive s in
      (
        λ foreign. (
          (λ j. ground (arith, script_value t s' j, text_eq.beq_iff key j)),
          ground (arith, script_reply t s'),
        ),
        λ own sent. (
          ground (arith, script_reply t s', =?_refl t),
          λ j. ground (arith, script_value t s' j, =?_refl t),
        ),
      )
