-- ===== src/Tests/Realtime.antt =====
-- reconnect_backoff.py, connection_manager.py on a concrete backoff and concrete connections.
use fastapi_task_api.Base.{◌≡◌, refl, ok}
use fastapi_task_api.Base.Int.{pos}
use fastapi_task_api.Base.{◌≢◌, true, false, some, List, [], ◌∷◌, arith}
use fastapi_task_api.Base.Int.{ℤ}
use fastapi_task_api.Base.Eq.{int_eq}
use fastapi_task_api.Base.Dict.{lookup, insert}
use fastapi_task_api.ConnectionManager.{
  ConnectionManager, is_in, connections_of, disconnect, Completion, send_to_connection,
  broadcast_to_user,
}
use fastapi_task_api.ConnectionManager.Membership.{IsDistinct, IsValid}
use fastapi_task_api.ReconnectBackoff.{ReconnectBackoff, create}

abbrev one_to_thirty : ReconnectBackoff
one_to_thirty = record { initial_delay = 1; maximum_delay = 30; upcoming = 1 }

one_to_thirty_created : create (pos 1) (pos 30) ≡ ok one_to_thirty
unfolding create
one_to_thirty_created = refl

-- Two connections of the user 1, one of the user 2.
abbrev pub three : ConnectionManager
three = record { connections_by_user = (pos 1, 10 ∷ 11 ∷ []) ∷ (pos 2, 20 ∷ []) ∷ [] }

three-IsDistinct : (u : ℤ) → IsDistinct (connections_of u three)
unfolding connections_of lookup
three-IsDistinct u = ground arith

three_inhabited : (u : ℤ) → lookup u three.connections_by_user ≢ some []
unfolding lookup
three_inhabited u h = ground arith

pub three-IsValid : IsValid three
three-IsValid = record { distinct = three-IsDistinct; inhabited = three_inhabited }

pub new_12 : is_in 12 (connections_of (pos 1) three) ≡ false
unfolding connections_of lookup
new_12 = refl

-- The second connection is gone.
abbrev second_gone : List Completion
second_gone =
    record { connection = 11; is_disconnected = true }
    ∷ record { connection = 10; is_disconnected = false }
    ∷ []

-- The user keeps the first one.
first_left : connections_of (pos 1) (broadcast_to_user (pos 1) second_gone three) ≡ 10 ∷ []
unfolding connections_of lookup broadcast_to_user send_to_connection disconnect insert
first_left = refl
