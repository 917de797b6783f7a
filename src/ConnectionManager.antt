-- ===== src/ConnectionManager.antt =====
-- connection_manager.py: class ConnectionManager. A WebSocket is
-- a number, which `==` compares as the code does by identity. The sends of a broadcast run at the same
-- time: a broadcast is the sequence of their completions, in any order. A send that raises another
-- exception than `WebSocketDisconnect` ends the sequence, since the task group cancels those left.
pub mod Membership
pub mod Broadcast
use fastapi_task_api.Base.{
  ℕ, ◌==◌, Bool, true, false, Option, none, some, List, [], ◌∷◌, ◌++◌, not, if◌then◌else◌,
}
use fastapi_task_api.Base.Int.{ℤ}
use fastapi_task_api.Base.Eq.{int_eq}
use fastapi_task_api.Base.Dict.{Dict, lookup, insert, remove}

abbrev pub WebSocket : Type 0
WebSocket = ℕ

-- `_connections_by_user`
pub record ConnectionManager : Type 0 where
  pub connections_by_user : Dict ℤ (List WebSocket)

abbrev pub create : ConnectionManager
create = record { connections_by_user = [] }

-- `websocket in user_connections`
abbrev pub is_in : WebSocket → List WebSocket → Bool
is_in websocket [] = false
is_in websocket (c ∷ connections) = if c == websocket then true else is_in websocket connections

-- `user_connections.remove(websocket)`: the first one
abbrev pub remove_first : WebSocket → List WebSocket → List WebSocket
remove_first websocket [] = []
remove_first websocket (c ∷ connections) =
    if c == websocket then connections else c ∷ remove_first websocket connections

-- `self._connections_by_user.get(user_id, ())`
abbrev pub or_empty : Option (List WebSocket) → List WebSocket
or_empty none = []
or_empty (some connections) = connections

unfoldable pub connections_of : ℤ → ConnectionManager → List WebSocket
connections_of user_id m = or_empty (lookup user_id m.connections_by_user)

-- `connect`, once the WebSocket is accepted
unfoldable pub connect : ℤ → WebSocket → ConnectionManager → ConnectionManager
unfolding connections_of
connect user_id websocket m = record {
  connections_by_user =
      insert user_id (connections_of user_id m ++ websocket ∷ []) m.connections_by_user;
}

-- What `disconnect` does with the connections left to the user.
abbrev pub keep_rest : ℤ → List WebSocket → ConnectionManager → ConnectionManager
keep_rest user_id [] m = record { connections_by_user = remove user_id m.connections_by_user }
keep_rest user_id (c ∷ rest) m = record {
  connections_by_user = insert user_id (c ∷ rest) m.connections_by_user;
}

abbrev pub disconnect_from :
    ℤ → WebSocket → Option (List WebSocket) → ConnectionManager → ConnectionManager
disconnect_from user_id websocket none m = m
disconnect_from user_id websocket (some connections) m =
    if not (is_in websocket connections)
    then m
    else keep_rest user_id (remove_first websocket connections) m

unfoldable pub disconnect : ℤ → WebSocket → ConnectionManager → ConnectionManager
disconnect user_id websocket m =
    disconnect_from user_id websocket (lookup user_id m.connections_by_user) m

-- A completed send: to which connection, and whether it raised `WebSocketDisconnect`.
pub record Completion : Type 0 where
  pub connection : WebSocket
  pub is_disconnected : Bool

-- `_send_to_connection`
unfoldable pub send_to_connection : ℤ → Completion → ConnectionManager → ConnectionManager
send_to_connection user_id c m = if c.is_disconnected then disconnect user_id c.connection m else m

-- The task group of `broadcast_to_user`, by the completions of its tasks.
unfoldable pub broadcast_to_user : ℤ → List Completion → ConnectionManager → ConnectionManager
broadcast_to_user user_id [] m = m
broadcast_to_user user_id (c ∷ completions) m =
    broadcast_to_user user_id completions (send_to_connection user_id c m)
