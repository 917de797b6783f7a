-- ===== src/ConnectionManager/Broadcast.antt =====
-- connection_manager.py: who is connected after a connect, and after a broadcast.
use fastapi_task_api.Base.{
  ◌==◌, ◌≡◌, ◌≢◌, refl, Bool, true, false, some, List, [], ◌∷◌, ◌++◌, ◌&&◌, if◌then◌else◌, arith,
}
use fastapi_task_api.Base.Int.{ℤ}
use fastapi_task_api.Base.Eq.{◌=?◌, int_eq}
use fastapi_task_api.Base.Dict.{lookup, lookup-insert}
use fastapi_task_api.ConnectionManager.{
  WebSocket, ConnectionManager, is_in, or_empty, connections_of, connect, Completion,
  send_to_connection, broadcast_to_user,
}
use fastapi_task_api.ConnectionManager.Membership.{
  IsDistinct, IsValid, is_in-remove_first, connections-disconnect, disconnect-IsValid,
}

is_in-append :
    (x d : WebSocket) (cs : List WebSocket)
    → is_in x (cs ++ d ∷ []) ≡ (if is_in x cs then true else d == x)
is_in-append x d [] = ground arith
is_in-append x d (c ∷ cs) = ground (arith, is_in-append x d cs)

append-IsDistinct :
    (d : WebSocket) (cs : List WebSocket)
    → IsDistinct cs
    → is_in d cs ≡ false
    → IsDistinct (cs ++ d ∷ [])
append-IsDistinct d [] h absent = (refl, tt)
append-IsDistinct d (x ∷ cs) h absent =
    ground (arith, append-IsDistinct d cs h.1, is_in-append x d cs, h.0)

append_not_empty : (d : WebSocket) (cs : List WebSocket) → (cs ++ d ∷ []) ≢ []
append_not_empty d [] h = cc
append_not_empty d (c ∷ cs) h = cc

connections-connect :
    (u j : ℤ) (d : WebSocket) (m : ConnectionManager)
    → connections_of j (connect u d m)
      ≡ (if u =? j then connections_of u m ++ d ∷ [] else connections_of j m)
unfolding connect connections_of
connections-connect u j d m = ground (
  arith,
  lookup-insert u j (or_empty (lookup u m.connections_by_user) ++ d ∷ []) m.connections_by_user,
)

connect_inhabited :
    (u j : ℤ) (d : WebSocket) (m : ConnectionManager)
    → lookup j m.connections_by_user ≢ some []
    → lookup j (connect u d m).connections_by_user ≢ some []
unfolding connect connections_of
connect_inhabited u j d m h e = ground (
  arith,
  lookup-insert u j (or_empty (lookup u m.connections_by_user) ++ d ∷ []) m.connections_by_user,
  append_not_empty d (or_empty (lookup u m.connections_by_user)),
  h,
)

-- A new connection of a user is added to this user's connections alone, and keeps the connections
-- distinct and every user in the dictionary with at least one.
pub connect-IsValid :
    (u : ℤ) (d : WebSocket) (m : ConnectionManager)
    → IsValid m
    → is_in d (connections_of u m) ≡ false
    → IsValid (connect u d m)
      × ((j : ℤ)
          → connections_of j (connect u d m)
            ≡ (if u =? j then connections_of u m ++ d ∷ [] else connections_of j m))
connect-IsValid u d m v new = (
  record {
    distinct = λ j. ground (
      arith,
      connections-connect u j d m,
      v.distinct j,
      append-IsDistinct d (connections_of u m) (v.distinct u) new,
    );
    inhabited = λ j. connect_inhabited u j d m (v.inhabited j);
  },
  λ j. connections-connect u j d m,
)

-- One of the completions is a disconnect of this connection.
pub is_lost : WebSocket → List Completion → Bool
is_lost c [] = false
is_lost c (d ∷ completions) =
    if d.is_disconnected && (d.connection == c) then true else is_lost c completions

send_lem :
    (u j : ℤ) (c : WebSocket) (d : Completion) (m : ConnectionManager)
    → IsValid m
    → IsValid (send_to_connection u d m)
      × (is_in c (connections_of j (send_to_connection u d m)) ≡ (
          if (u =? j) && (d.is_disconnected && (d.connection == c))
          then false
          else is_in c (connections_of j m)))
unfolding send_to_connection
send_lem u j c d m v = ground (
  arith,
  disconnect-IsValid u d.connection m v,
  connections-disconnect u j d.connection m,
  int_eq.beq_iff u j,
  is_in-remove_first c d.connection (connections_of u m) (v.distinct u),
)

-- In whatever order the sends of a broadcast to a user complete, each with success or with
-- `WebSocketDisconnect`, afterwards exactly those connections of the user are left that did not
-- disconnect, those of other users are as they were, connections are distinct, and every user in the
-- dictionary has at least one.
pub broadcast_members :
    (u : ℤ) (completions : List Completion) (m : ConnectionManager)
    → IsValid m
    → IsValid (broadcast_to_user u completions m)
      × ((j : ℤ) (c : WebSocket)
          → is_in c (connections_of j (broadcast_to_user u completions m))
            ≡ (if (u =? j) && is_lost c completions then false else is_in c (connections_of j m)))
unfolding broadcast_to_user is_lost
broadcast_members u [] m v = (v, λ j c. ground arith)
broadcast_members u (d ∷ completions) m v =
    let m' = send_to_connection u d m in
    let (v', rest) = broadcast_members u completions m' (send_lem u u 0 d m v).0 in
    (v', λ j c. ground (arith, rest j c, (send_lem u j c d m v).1))
