-- ===== src/Redis/Server.antt =====
-- A server in memory that meets the laws, for concrete runs: a list of texts, a list of counters with
-- the seconds left, the faults that the next calls meet, and the messages published.
use fastapi_task_api.Base.{
  ℕ, ◌+◌, ◌≡◌, refl, true, false, Option, none, some, List, [], ◌∷◌, if◌then◌else◌, arith,
}
use fastapi_task_api.Base.Int.{ℤ, pos, negsuc}
use fastapi_task_api.Base.Text.{Text}
use fastapi_task_api.Base.Eq.{◌=?◌, text_eq}
use fastapi_task_api.Base.Dict.{Dict, lookup, insert, remove, lookup-insert, lookup-remove, =?_refl}
use fastapi_task_api.Redis.{Redis, Fault, delivered}
use fastapi_task_api.Redis.Laws.{Laws, CounterLaws, is_none}

pub record Memory : Type 0 where
  pub texts : Dict Text Text
  pub counters : Dict Text (ℕ × ℤ)
  pub faults : List Fault
  -- channels and texts, the latest last
  pub messages : List (Text × Text)

abbrev pub empty : Memory
empty = record { texts = []; counters = []; faults = []; messages = [] }

abbrev next_fault : List Fault → Fault
next_fault [] = delivered
next_fault (f ∷ faults) = f

abbrev later_faults : List Fault → List Fault
later_faults [] = []
later_faults (f ∷ faults) = faults

-- The next fault of the list, and the rest of it.
abbrev pub fault_of : Memory → Fault
fault_of m = next_fault m.faults

abbrev pub tick : Memory → Memory
tick m = record m { faults = later_faults m.faults }

abbrev read : Text → Memory → Option Text
read k m = lookup k m.texts

abbrev write : Text → Text → Memory → Memory
write k v m = record m { texts = insert k v m.texts }

abbrev drop_key : Text → Memory → Memory
drop_key k m = record m { texts = remove k m.texts }

abbrev counted : Option (ℕ × ℤ) → ℕ × ℤ
counted none = (0, negsuc 0)
counted (some c) = c

abbrev left_of : Option (ℕ × ℤ) → ℤ
left_of none = negsuc 1
left_of (some c) = c.1

abbrev count_at : Memory → Text → ℕ
count_at m k = (counted (lookup k m.counters)).0

abbrev put_counter : Text → ℕ × ℤ → Memory → Memory
put_counter k c m = record m { counters = insert k c m.counters }

abbrev pub server : (Memory → Fault) → (Memory → Memory) → Redis
server fault arrive = record {
  State = Memory;
  fault = fault;
  arrive = arrive;
  get = λ k m. (read k m, m);
  set = λ k v ex m. (tt, write k v m);
  set_nx = λ k v ex m. if is_none (read k m) then (true, write k v m) else (false, m);
  delete = λ k m. (if is_none (read k m) then 0 else 1, drop_key k m);
  getdel = λ k m. (read k m, drop_key k m);
  incr = λ k m. let c = counted (lookup k m.counters) in (c.0 + 1, put_counter k (c.0 + 1, c.1) m);
  expire = λ k ex m. (tt, put_counter k (count_at m k, pos ex) m);
  ttl = λ k m. (left_of (lookup k m.counters), m);
}

module _ (fault : Memory → Fault) (arrive : Memory → Memory) where
  pub set_nx_reply_lem :
      (k v : Text) (ex : ℕ) (m : Memory)
      → ((server fault arrive).set_nx k v ex m).0 ≡ is_none (read k m)
  set_nx_reply_lem k v ex m = ground arith

  pub set_nx_value_lem :
      (k v : Text) (ex : ℕ) (m : Memory) (j : Text)
      → read j ((server fault arrive).set_nx k v ex m).1
        ≡ (if k =? j then (if is_none (read k m) then some v else read k m) else read j m)
  set_nx_value_lem k v ex m j = ground (arith, lookup-insert k j v m.texts, text_eq.beq_iff k j)

  abbrev pub server_laws : Laws (server fault arrive)
  server_laws = record {
    value = λ m k. read k m;
    get_reply = λ k m. refl;
    get_value = λ k m j. refl;
    set_value = λ k v ex m j. lookup-insert k j v m.texts;
    set_nx_reply = set_nx_reply_lem;
    set_nx_value = set_nx_value_lem;
    delete_reply = λ k m. refl;
    delete_value = λ k m j. lookup-remove k j m.texts;
    getdel_reply = λ k m. refl;
    getdel_value = λ k m j. lookup-remove k j m.texts;
  }

  pub incr_counter_lem :
      (k : Text) (m : Memory) (j : Text)
      → count_at ((server fault arrive).incr k m).1 j
        ≡ (if k =? j then count_at m k + 1 else count_at m j)
  incr_counter_lem k m j = ground (
    arith,
    lookup-insert k j ((counted (lookup k m.counters)).0 + 1, (counted (lookup k m.counters)).1)
        m.counters,
  )

  pub incr_remaining_lem :
      (k : Text) (m : Memory) (j : Text)
      → (count_at m j ≡ 0 → ⊥)
      → left_of (lookup j ((server fault arrive).incr k m).1.counters)
        ≡ left_of (lookup j m.counters)
  incr_remaining_lem k m j h = ground (
    arith,
    text_eq.beq_iff k j,
    lookup-insert k j ((counted (lookup k m.counters)).0 + 1, (counted (lookup k m.counters)).1)
        m.counters,
  )

  pub expire_counter_lem :
      (k : Text) (ex : ℕ) (m : Memory) (j : Text)
      → count_at ((server fault arrive).expire k ex m).1 j ≡ count_at m j
  expire_counter_lem k ex m j =
      ground (arith, text_eq.beq_iff k j, lookup-insert k j (count_at m k, pos ex) m.counters)

  pub expire_remaining_lem :
      (k : Text) (ex : ℕ) (m : Memory)
      → (count_at m k ≡ 0 → ⊥)
      → left_of (lookup k ((server fault arrive).expire k ex m).1.counters) ≡ pos ex
  expire_remaining_lem k ex m h =
      ground (arith, =?_refl k, lookup-insert k k (count_at m k, pos ex) m.counters)

  abbrev pub server_counter_laws : CounterLaws (server fault arrive)
  server_counter_laws = record {
    counter = count_at;
    remaining = λ m k. left_of (lookup k m.counters);
    incr_reply = λ k m. refl;
    incr_counter = incr_counter_lem;
    incr_remaining = incr_remaining_lem;
    expire_counter = expire_counter_lem;
    expire_remaining = expire_remaining_lem;
    ttl_reply = λ k m. refl;
    ttl_counter = λ k m j. refl;
    ttl_remaining = λ k m j. refl;
  }

-- A server that no call fails to reach, and on which nothing else happens.
abbrev pub quiet : Redis
quiet = server (λ m. delivered) (λ m. m)

abbrev pub quiet_laws : Laws quiet
quiet_laws = server_laws (λ m. delivered) (λ m. m)

abbrev pub quiet_counter_laws : CounterLaws quiet
quiet_counter_laws = server_counter_laws (λ m. delivered) (λ m. m)
