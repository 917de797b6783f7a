-- ===== src/RealtimeRoutes/Membership.antt =====
-- routers/realtime.py, connection_manager.py: who is connected when the route has ended.
use fastapi_task_api.Base.{
  ◌==◌, ◌≡◌, refl, false, ◌&&◌, Option, none, some, List, [], ◌∷◌, if◌then◌else◌, arith, subst, sym,
}
use fastapi_task_api.Base.Int.{ℤ}
use fastapi_task_api.Base.Eq.{◌=?◌, int_eq}
use fastapi_task_api.ConnectionManager.{
  WebSocket, ConnectionManager, connect, connections_of, is_in,
}
use fastapi_task_api.ConnectionManager.Membership.{
  IsValid, is_in-remove_first, connections-disconnect, disconnect-IsValid,
}
use fastapi_task_api.ConnectionManager.Broadcast.{connect-IsValid}
use fastapi_task_api.RealtimeBroker.{Publishing, RedisRealtimeEventPublisher}
use fastapi_task_api.RealtimeModels.{Json}
use fastapi_task_api.RealtimeRoutes.{
  Incoming, not_json, other_payload, content, disconnects, fails, Ended, Round, Session,
  after_publish, on_incoming, go_on, serve, finish, broadcast_messages, pass_disconnect,
}
use fastapi_task_api.Redis.{Redis}

-- What the other coroutines do in the rounds keeps the connections well formed.
abbrev pub AreFair : List Round → Type 0
AreFair [] = Unit
AreFair (r ∷ rounds) =
    ((m : ConnectionManager) → IsValid m → IsValid (r.meanwhile m)) × AreFair rounds

module _ (redis : Redis) (p : Publishing redis) (json : Json)
    (publisher : RedisRealtimeEventPublisher) (u : ℤ) where
  incoming_manager :
      (closing : Ended) (i : Incoming) (s : Session redis)
      → (on_incoming redis p json publisher u closing i s).1.manager ≡ s.manager
  unfolding on_incoming after_publish
  incoming_manager closing not_json s = refl
  incoming_manager closing other_payload s = refl
  incoming_manager closing (content message) s = ground arith
  incoming_manager closing disconnects s = refl
  incoming_manager closing (fails e) s = refl

  go_on-IsValid :
      (rounds : List Round) (r : Option Ended × Session redis)
      → ((s : Session redis)
          → IsValid s.manager
          → IsValid (serve redis p json publisher u rounds s).1.manager)
      → IsValid r.1.manager
      → IsValid (go_on redis p json publisher u (serve redis p json publisher u rounds) r).1.manager
  go_on-IsValid rounds (none, s) rest v = rest s v
  go_on-IsValid rounds (some e, s) rest v = v

  serve-IsValid :
      (rounds : List Round) (s : Session redis)
      → AreFair rounds
      → IsValid s.manager
      → IsValid (serve redis p json publisher u rounds s).1.manager
  unfolding serve
  serve-IsValid [] s fair v = v
  serve-IsValid (r ∷ rounds) s fair v =
      let s' = record s { manager = r.meanwhile s.manager } in
      go_on-IsValid rounds (on_incoming redis p json publisher u r.closing r.incoming s')
        (λ t. serve-IsValid rounds t fair.1)
        (subst IsValid (sym (incoming_manager r.closing r.incoming s')) (fair.0 s.manager v))

  finished_members :
      (w : WebSocket) (e : Ended) (r : Option Ended × Session redis)
      → IsValid r.1.manager
      → r.0 ≡ some e
      → let f = finish redis p json publisher u w r in
        (f.0 ≡ some (pass_disconnect e))
        × IsValid f.1.manager
        × ((j : ℤ) (c : WebSocket)
            → is_in c (connections_of j f.1.manager)
              ≡ (if (u =? j) && (w == c) then false else is_in c (connections_of j r.1.manager)))
  unfolding finish
  finished_members w e (none, s) v ended = ground arith
  finished_members w e (some e', s) v ended = (
    ground (arith, ended),
    disconnect-IsValid u w s.manager v,
    λ j c. ground (
      arith,
      connections-disconnect u j w s.manager,
      int_eq.beq_iff u j,
      is_in-remove_first c w (connections_of u s.manager) (v.distinct u),
    ),
  )

  -- However the route ends - the client leaves or sends what is no message, Redis fails, another
  -- exception comes, or closing fails - and whatever other coroutines do to the connections meanwhile,
  -- if it keeps them well formed and the WebSocket is new: the WebSocket is no longer among the user's
  -- connections, every other one stands where it stood when the loop ended, the connections are well
  -- formed, and a disconnect of the client is no exception of the route.
  pub broadcast_leaves :
      (w : WebSocket) (rounds : List Round) (s : Session redis) (e : Ended)
      → IsValid s.manager
      → is_in w (connections_of u s.manager) ≡ false
      → AreFair rounds
      → let looped =
          serve redis p json publisher u rounds (record s { manager = connect u w s.manager }) in
        let r = broadcast_messages redis p json publisher u w rounds s in
        looped.0 ≡ some e
        → (r.0 ≡ some (pass_disconnect e))
          × IsValid r.1.manager
          × ((j : ℤ) (c : WebSocket)
              → is_in c (connections_of j r.1.manager) ≡ (
                  if (u =? j) && (w == c)
                  then false
                  else is_in c (connections_of j looped.1.manager)))
  unfolding broadcast_messages
  broadcast_leaves w rounds s e v new fair ended =
      let s₁ = record s { manager = connect u w s.manager } in
      finished_members w e (serve redis p json publisher u rounds s₁)
        (serve-IsValid rounds s₁ fair (connect-IsValid u w s.manager v new).0) ended
