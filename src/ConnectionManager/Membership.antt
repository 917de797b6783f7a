-- ===== src/ConnectionManager/Membership.antt =====
-- connection_manager.py: who is connected after a broadcast.
use fastapi_task_api.Base.{
  ◌==◌, ◌≡◌, ◌≢◌, refl, false, some, List, [], ◌∷◌, if◌then◌else◌, arith, Bool-cases, Option-cases,
  inl, inr,
}
use fastapi_task_api.Base.Int.{ℤ}
use fastapi_task_api.Base.Eq.{◌=?◌, int_eq}
use fastapi_task_api.Base.Dict.{lookup, lookup-insert, lookup-remove}
use fastapi_task_api.ConnectionManager.{
  WebSocket, ConnectionManager, is_in, remove_first, connections_of, disconnect, keep_rest,
}

-- No connection stands twice in the list.
abbrev pub IsDistinct : List WebSocket → Type 0
IsDistinct [] = Unit
IsDistinct (c ∷ connections) = (is_in c connections ≡ false) × IsDistinct connections

pub is_in-remove_first :
    (c d : WebSocket) (cs : List WebSocket)
    → IsDistinct cs
    → is_in c (remove_first d cs) ≡ (if d == c then false else is_in c cs)
is_in-remove_first c d [] h = ground arith
is_in-remove_first c d (x ∷ cs) h = ground (arith, is_in-remove_first c d cs h.1, h.0)

remove_first-IsDistinct :
    (d : WebSocket) (cs : List WebSocket) → IsDistinct cs → IsDistinct (remove_first d cs)
remove_first-IsDistinct d [] h = tt
remove_first-IsDistinct d (x ∷ cs) h =
    ground (arith, is_in-remove_first x d cs h.1, remove_first-IsDistinct d cs h.1)

remove_first_absent :
    (d : WebSocket) (cs : List WebSocket) → is_in d cs ≡ false → remove_first d cs ≡ cs
remove_first_absent d [] h = refl
remove_first_absent d (x ∷ cs) h = ground (arith, remove_first_absent d cs)

connections-keep_rest :
    (u j : ℤ) (cs : List WebSocket) (m : ConnectionManager)
    → connections_of j (keep_rest u cs m) ≡ (if u =? j then cs else connections_of j m)
unfolding connections_of
connections-keep_rest u j [] m = ground (arith, lookup-remove u j m.connections_by_user)
connections-keep_rest u j (c ∷ cs) m =
    ground (arith, lookup-insert u j (c ∷ cs) m.connections_by_user)

-- A disconnect takes the connection from its user, and leaves other users alone.
pub connections-disconnect :
    (u j : ℤ) (d : WebSocket) (m : ConnectionManager)
    → connections_of j (disconnect u d m)
      ≡ (if u =? j then remove_first d (connections_of u m) else connections_of j m)
unfolding disconnect connections_of
connections-disconnect u j d m = elim (Option-cases (lookup u m.connections_by_user)) [
  | inl none_of ↦ ground (arith, none_of, int_eq.beq_iff u j)
  | inr (cs, found) ↦ elim (Bool-cases (is_in d cs)) [
    | inl here ↦ ground (arith, found, here, connections-keep_rest u j (remove_first d cs) m)
    | inr absent ↦ ground (arith, found, absent, remove_first_absent d cs, int_eq.beq_iff u j)
  ]
]

-- Every user's connections are distinct, and no user stands in the dictionary without one.
pub record IsValid (m : ConnectionManager) : Type 0 where
  pub distinct : (u : ℤ) → IsDistinct (connections_of u m)
  pub inhabited : (u : ℤ) → lookup u m.connections_by_user ≢ some []

keep_rest_inhabited :
    (u j : ℤ) (cs : List WebSocket) (m : ConnectionManager)
    → lookup j m.connections_by_user ≢ some []
    → lookup j (keep_rest u cs m).connections_by_user ≢ some []
keep_rest_inhabited u j [] m h e = ground (arith, lookup-remove u j m.connections_by_user)
keep_rest_inhabited u j (c ∷ cs) m h e =
    ground (arith, lookup-insert u j (c ∷ cs) m.connections_by_user)

disconnect_inhabited :
    (u j : ℤ) (d : WebSocket) (m : ConnectionManager)
    → lookup j m.connections_by_user ≢ some []
    → lookup j (disconnect u d m).connections_by_user ≢ some []
unfolding disconnect
disconnect_inhabited u j d m h = elim (Option-cases (lookup u m.connections_by_user)) [
  | inl none_of ↦ ground (arith, none_of, h)
  | inr (cs, found) ↦ ground (arith, found, h, keep_rest_inhabited u j (remove_first d cs) m h)
]

pub disconnect-IsValid :
    (u : ℤ) (d : WebSocket) (m : ConnectionManager) → IsValid m → IsValid (disconnect u d m)
disconnect-IsValid u d m v = record {
  distinct = λ j. ground (
    arith,
    connections-disconnect u j d m,
    v.distinct j,
    remove_first-IsDistinct d (connections_of u m) (v.distinct u),
  );
  inhabited = λ j. disconnect_inhabited u j d m (v.inhabited j);
}
