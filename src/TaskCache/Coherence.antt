-- ===== src/TaskCache/Coherence.antt =====
-- task_cache.py: a cache whose entries agree with the tasks that the database has. `possible` says
-- which answers an owner and a task id may get, such as the one that the database gives.
use fastapi_task_api.Base.{
  ℕ, ◌≡◌, inl, inr, refl, sym, ◌∙◌, pure, Bool, true, false, Option, none, some, arith, Bool-cases,
}
use fastapi_task_api.Base.Int.{ℤ}
use fastapi_task_api.Base.Text.{Text}
use fastapi_task_api.Base.Eq.{◌=?◌, text_eq}
use fastapi_task_api.Models.{TaskResponse}
use fastapi_task_api.Redis.{Redis, call}
use fastapi_task_api.Redis.Calls.{Returns, call_rule, bind_rule}
use fastapi_task_api.Redis.Laws.{Laws}
use fastapi_task_api.TaskCache.{
  TaskCacheLookup, Json, miss, task_not_found_cache_marker, build_key, read_json, read_reply,
  lookup_task,
}
use fastapi_task_api.TaskCache.Keys.{build_key-injective}

-- An entry stands for a possible answer, by whether it is the marker and what it reads as. An entry
-- that cannot be read stands for none.
abbrev pub EntryAgrees : Bool → Option TaskResponse → (Option TaskResponse → Type 0) → Type 0
EntryAgrees true read Possible = Possible none
EntryAgrees false none Possible = Unit
EntryAgrees false (some task) Possible = Possible (some task)

pub EntryAgrees-map :
    (b : Bool) (read : Option TaskResponse) (P Q : Option TaskResponse → Type 0)
    → ((answer : Option TaskResponse) → P answer → Q answer)
    → EntryAgrees b read P
    → EntryAgrees b read Q
EntryAgrees-map true read P Q more h = more none h
EntryAgrees-map false none P Q more h = tt
EntryAgrees-map false (some task) P Q more h = more (some task) h

-- The one answer that is possible is this one.
abbrev pub Exactly : (ℤ → ℤ → Option TaskResponse) → ℤ → ℤ → Option TaskResponse → Type 0
Exactly expected o i answer = expected o i ≡ answer

module _ (redis : Redis) (laws : Laws redis) (json : Json)
    (Possible : ℤ → ℤ → Option TaskResponse → Type 0) where
  open redis use {State}
  open laws use {value}

  abbrev pub Agrees : Text → (Option TaskResponse → Type 0) → Type 0
  Agrees v Answer = EntryAgrees (v =? task_not_found_cache_marker) (json.validate v) Answer

  pub record IsCoherent (s : State) : Type 0 where
    pub entry : (o i : ℤ) (v : Text) → value s (build_key o i) ≡ some v → Agrees v (Possible o i)

  pub get-IsCoherent : (k : Text) (s : State) → IsCoherent s → IsCoherent (redis.get k s).1
  get-IsCoherent k s c = record {
    entry = λ o i v h. c.entry o i v (sym (laws.get_value k s (build_key o i)) ∙ h);
  }

  pub delete-IsCoherent : (k : Text) (s : State) → IsCoherent s → IsCoherent (redis.delete k s).1
  delete-IsCoherent k s c = record {
    entry = λ o i v h. ground (arith, laws.delete_value k s (build_key o i), c.entry o i v);
  }

  pub set-IsCoherent :
      (o i : ℤ) (v : Text) (ex : ℕ) (s : State)
      → Agrees v (Possible o i)
      → IsCoherent s
      → IsCoherent (redis.set (build_key o i) v ex s).1
  set-IsCoherent o i v ex s agrees c = record {
    entry = λ o' i' w h.
        let e = sym (laws.set_value (build_key o i) v ex s (build_key o' i')) ∙ h in
        elim (Bool-cases (build_key o i =? build_key o' i')) [
          | inl same ↦
              let (eo, ei) =
                build_key-injective o i o' i'
                  ((text_eq.beq_iff (build_key o i) (build_key o' i')).0 same) in
              let ew : v ≡ w = ground (arith, same, e) in rw (← eo, ← ei, ← ew) agrees
          | inr other ↦ c.entry o' i' w (ground (arith, other, e))
        ];
  }

  -- A key that is no key of the cache.
  pub foreign-IsCoherent :
      (k v : Text) (ex : ℕ) (s : State)
      → ((o i : ℤ) → (k =? build_key o i) ≡ false)
      → IsCoherent s
      → IsCoherent (redis.set_nx k v ex s).1
  foreign-IsCoherent k v ex s foreign c = record {
    entry = λ o i w h.
        c.entry o i w (ground (arith, laws.set_nx_value k v ex s (build_key o i), foreign o i));
  }

  -- A hit is a possible answer.
  abbrev pub IsAnswer : (o i : ℤ) → TaskCacheLookup → Type 0
  IsAnswer o i l = l.cache_hit ≡ true → Possible o i l.task

  module _ (arrives : (s : State) → IsCoherent s → IsCoherent (redis.arrive s)) where
    read_json_sound :
        (o i : ℤ) (read : Option TaskResponse) (s : State)
        → EntryAgrees false read (Possible o i)
        → IsCoherent s
        → IsCoherent (read_json redis json (build_key o i) read s).1
          × Returns (IsAnswer o i) (read_json redis json (build_key o i) read s).0
    unfolding read_json
    read_json_sound o i (some task) s agrees c = (c, λ hit. agrees)
    read_json_sound o i none s agrees c =
        let k = build_key o i in
        bind_rule IsCoherent (λ n. Unit {0}) (IsAnswer o i) (λ _. pure miss)
          (λ n t c' _. (c', λ hit. cc)) (call redis (redis.delete k)) s
          (call_rule redis IsCoherent (λ n. Unit {0}) (redis.delete k) s (arrives s c)
            (delete-IsCoherent k (redis.arrive s) (arrives s c)) tt)

    read_reply_sound :
        (o i : ℤ) (v : Option Text) (s : State)
        → ((w : Text) → v ≡ some w → Agrees w (Possible o i))
        → IsCoherent s
        → IsCoherent (read_reply redis json (build_key o i) v s).1
          × Returns (IsAnswer o i) (read_reply redis json (build_key o i) v s).0
    unfolding read_reply
    read_reply_sound o i none s agrees c = (c, λ hit. cc)
    read_reply_sound o i (some w) s agrees c =
        elim (Bool-cases (w =? task_not_found_cache_marker)) [
          | inl marker ↦ rw marker (c, λ hit. rw marker at (agrees w refl))
          | inr other ↦
              rw other (read_json_sound o i (json.validate w) s (rw other at (agrees w refl)) c)
        ]

    -- If others' commands keep the cache coherent, a lookup in a coherent cache leaves it coherent,
    -- and a hit is a possible answer.
    pub lookup_sound :
        (o i : ℤ) (s : State)
        → IsCoherent s
        → IsCoherent (lookup_task redis json o i s).1
          × Returns (IsAnswer o i) (lookup_task redis json o i s).0
    unfolding lookup_task
    lookup_sound o i s c =
        let k = build_key o i in
        let s' = redis.arrive s in
        let c' = arrives s c in
        bind_rule IsCoherent (λ v. (w : Text) → v ≡ some w → Agrees w (Possible o i)) (IsAnswer o i)
          (read_reply redis json k) (λ v t d q. read_reply_sound o i v t q d)
          (call redis (redis.get k)) s
          (call_rule redis IsCoherent (λ v. (w : Text) → v ≡ some w → Agrees w (Possible o i))
            (redis.get k) s c' (get-IsCoherent k s' c')
            (λ w h. c'.entry o i w (sym (laws.get_reply k s') ∙ h)))

-- A cache stays coherent when more answers become possible.
pub IsCoherent-map :
    (redis : Redis) (laws : Laws redis) (json : Json) (P Q : ℤ → ℤ → Option TaskResponse → Type 0)
    (s : redis.State)
    → ((o i : ℤ) (answer : Option TaskResponse) → P o i answer → Q o i answer)
    → IsCoherent redis laws json P s
    → IsCoherent redis laws json Q s
IsCoherent-map redis laws json P Q s more c = record {
  entry = λ o i v h.
      EntryAgrees-map (v =? task_not_found_cache_marker) (json.validate v) (P o i) (Q o i)
        (more o i) (c.entry o i v h);
}
