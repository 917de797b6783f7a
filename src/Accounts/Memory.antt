-- ===== src/Accounts/Memory.antt =====
-- A table of users in memory that meets the laws, for concrete runs. A row counts if the index of
-- usernames leads to it.
use fastapi_task_api.Base.{
  ℕ, Option-cases, Bool-cases, inl, inr, ◌+◌, max, ◌≤◌, ◌≡◌, refl, Bool, false, Option, none, some,
  [], ◌∷◌, if◌then◌else◌, arith,
}
use fastapi_task_api.Base.Dict.{Dict, lookup, insert, lookup-insert, =?_refl}
use fastapi_task_api.Base.Int.{ℤ, pos, pos_part, ◌==ℤ◌, ==ℤ_iff}
use fastapi_task_api.Base.Text.{Text}
use fastapi_task_api.Base.Eq.{◌=?◌, text_eq, int_eq}
use fastapi_task_api.Models.{UserRecord}
use fastapi_task_api.Accounts.{UserTable}
use fastapi_task_api.Accounts.Laws.{Laws}

pub record Entry : Type 0 where
  pub username : Text
  pub hashed_password : Text
  pub is_active : Bool

pub record Memory : Type 0 where
  pub entries : Dict ℤ Entry
  pub ids : Dict Text ℤ

abbrev user_at : ℤ → Entry → UserRecord
user_at i e = record {
  id = i;
  username = e.username;
  hashed_password = e.hashed_password;
  is_active = e.is_active;
}

abbrev entry_of : UserRecord → Entry
entry_of u = record {
  username = u.username;
  hashed_password = u.hashed_password;
  is_active = u.is_active;
}

abbrev if_named : Text → ℤ → Option Entry → Option UserRecord
if_named n i none = none
if_named n i (some e) = if e.username =? n then some (user_at i e) else none

abbrev entry_named : Memory → Text → Option ℤ → Option UserRecord
entry_named m n none = none
entry_named m n (some i) = if_named n i (lookup i m.entries)

abbrev pub named_in : Memory → Text → Option UserRecord
named_in m n = entry_named m n (lookup n m.ids)

abbrev if_indexed : ℤ → Entry → Option ℤ → Option UserRecord
if_indexed i e none = none
if_indexed i e (some j) = if j ==ℤ i then some (user_at i e) else none

abbrev entry_indexed : Memory → ℤ → Option Entry → Option UserRecord
entry_indexed m i none = none
entry_indexed m i (some e) = if_indexed i e (lookup e.username m.ids)

abbrev pub row_in : Memory → ℤ → Option UserRecord
row_in m i = entry_indexed m i (lookup i m.entries)

abbrev above : Dict ℤ Entry → ℕ
above [] = 1
above ((j, e) ∷ entries) = max (pos_part j + 1) (above entries)

abbrev pub first_free : Memory → ℤ
first_free m = pos (above m.entries)

lookup-above : (entries : Dict ℤ Entry) (n : ℕ) → above entries ≤ n → lookup (pos n) entries ≡ none
unfolding lookup
lookup-above [] n h = refl
lookup-above ((j, e) ∷ entries) n h = ground (arith, ==ℤ_iff j (pos n), lookup-above entries n)

-- Each registration gets the id `i`.
abbrev add_user : UserRecord → Memory → Memory
add_user u m = record m {
  entries = insert u.id (entry_of u) m.entries;
  ids = insert u.username u.id m.ids;
}

abbrev insert_unless : Option UserRecord → UserRecord → Memory → Option UserRecord × Memory
insert_unless (some taken) u m = (none, m)
insert_unless none u m = (some u, add_user u m)

-- The table that always works, with what other clients do.
abbrev pub users : (Memory → Memory) → UserTable
users arrive = record {
  State = Memory;
  fails = λ m. false;
  arrive = arrive;
  select_username = λ n m. named_in m n;
  select_user = λ i m. row_in m i;
  insert_user =
      λ draft m. let u = draft (first_free m) in insert_unless (named_in m u.username) u m;
}

pub named_row_lem :
    (m : Memory) (n : Text) (u : UserRecord)
    → named_in m n ≡ some u
    → (row_in m u.id ≡ some u) × (u.username ≡ n)
named_row_lem m n u h = elim (Option-cases (lookup n m.ids)) [
  | inl absent ↦ ground (arith, absent)
  | inr (i, indexed) ↦ elim (Option-cases (lookup i m.entries)) [
    | inl gone ↦ ground (arith, indexed, gone)
    | inr (e, found) ↦ ground (arith, indexed, found, text_eq.beq_iff e.username n, ==ℤ_iff i i)
  ]
]

pub row_named_lem :
    (m : Memory) (i : ℤ) (u : UserRecord)
    → row_in m i ≡ some u
    → (named_in m u.username ≡ some u) × (u.id ≡ i)
row_named_lem m i u h = elim (Option-cases (lookup i m.entries)) [
  | inl absent ↦ ground (arith, absent)
  | inr (e, found) ↦ elim (Option-cases (lookup e.username m.ids)) [
    | inl gone ↦ ground (arith, found, gone)
    | inr (j, indexed) ↦
        ground (arith, found, indexed, ==ℤ_iff j i, text_eq.beq_iff e.username e.username)
  ]
]

add_row_other :
    (u : UserRecord) (m : Memory) (j : ℤ) (e : Entry)
    → named_in m u.username ≡ none
    → (u.id ==ℤ j) ≡ false
    → lookup j m.entries ≡ some e
    → row_in (add_user u m) j ≡ (if u.id ==ℤ j then some u else row_in m j)
add_row_other u m j e fresh other found = elim (Option-cases (lookup e.username m.ids)) [
  | inl gone ↦ ground (
    arith,
    other,
    found,
    gone,
    lookup-insert u.id j (entry_of u) m.entries,
    lookup-insert u.username e.username u.id m.ids,
    text_eq.beq_iff u.username e.username,
  )
  | inr (k, indexed) ↦ ground (
    arith,
    other,
    found,
    indexed,
    ==ℤ_iff k j,
    lookup-insert u.id j (entry_of u) m.entries,
    lookup-insert u.username e.username u.id m.ids,
    text_eq.beq_iff u.username e.username,
    text_eq.beq_iff e.username u.username,
  )
]

add_row :
    (u : UserRecord) (m : Memory) (j : ℤ)
    → named_in m u.username ≡ none
    → row_in (add_user u m) j ≡ (if u.id ==ℤ j then some u else row_in m j)
add_row u m j fresh = elim (Bool-cases (u.id ==ℤ j)) [
  | inl same ↦ ground (
    arith,
    same,
    ==ℤ_iff u.id j,
    lookup-insert u.id j (entry_of u) m.entries,
    lookup-insert u.username u.username u.id m.ids,
    =?_refl u.username,
  )
  | inr other ↦ elim (Option-cases (lookup j m.entries)) [
    | inl absent ↦ ground (arith, other, absent, lookup-insert u.id j (entry_of u) m.entries)
    | inr (e, found) ↦ add_row_other u m j e fresh other found
  ]
]

pub insert_row_lem :
    (arrive : Memory → Memory) (draft : ℤ → UserRecord) (m : Memory) (j : ℤ)
    → named_in m (draft (first_free m)).username ≡ none
    → (draft (first_free m)).id ≡ first_free m
    → row_in ((users arrive).insert_user draft m).1 j
      ≡ (if first_free m ==ℤ j then some (draft (first_free m)) else row_in m j)
insert_row_lem arrive draft m j fresh same =
    let u = draft (first_free m) in ground (arith, fresh, same, add_row u m j fresh)

pub next_id_free_lem : (m : Memory) → row_in m (first_free m) ≡ none
next_id_free_lem m = ground (arith, lookup-above m.entries (above m.entries))

abbrev pub users_laws : (arrive : Memory → Memory) → Laws (users arrive)
users_laws arrive = record {
  row = row_in;
  named = named_in;
  select_user_row = λ i m. refl;
  select_username_row = λ n m. refl;
  named_row = named_row_lem;
  row_named = row_named_lem;
  next_id = first_free;
  next_id_free = next_id_free_lem;
  insert_taken = λ draft m u taken. rw taken;
  insert_reply = λ draft m fresh. rw fresh;
  insert_row = insert_row_lem arrive;
}
