-- ===== src/WebsocketTickets/SingleUse.antt =====
-- websocket_tickets.py: a ticket names the user that it was issued to, and can be used once.
use fastapi_task_api.Base.{◌∙◌, ◌≡◌, ◌≢◌, none, some, ok, arith}
use fastapi_task_api.Base.Int.{ℤ}
use fastapi_task_api.Base.Text.{Text, str, int-str}
use fastapi_task_api.Base.Eq.{text_eq}
use fastapi_task_api.Base.Dict.{=?_refl}
use fastapi_task_api.Redis.{Redis, Fault, delivered}
use fastapi_task_api.Redis.Laws.{Laws}
use fastapi_task_api.WebsocketTickets.{WebSocketTicketStore, build_key, issue, consume}

module _ (redis : Redis) (laws : Laws redis) (store : WebSocketTicketStore) where
  open redis use {State}
  open laws use {value}

  issue_stores :
      (user_id : ℤ) (ticket : Text) (s : State)
      → (issue redis store user_id ticket s).0 ≡ ok ticket
      → value (issue redis store user_id ticket s).1 (build_key ticket) ≡ some (str user_id)
  unfolding issue
  issue_stores user_id ticket s h =
      let s' = redis.arrive s in
      ground (
        arith,
        laws.set_nx_reply (build_key ticket) (str user_id) store.ttl_seconds s',
        laws.set_nx_value (build_key ticket) (str user_id) store.ttl_seconds s' (build_key ticket),
        =?_refl (build_key ticket),
      )

  consume_stored :
      (user_id : ℤ) (ticket : Text) (s : State)
      → value (redis.arrive s) (build_key ticket) ≡ some (str user_id)
      → redis.fault s ≡ delivered
      → (consume redis ticket s).0 ≡ ok (some user_id)
  unfolding consume
  consume_stored user_id ticket s h sent =
      ground (arith, laws.getdel_reply (build_key ticket) (redis.arrive s), int-str user_id)

  consume_empties :
      (ticket : Text) (s : State)
      → redis.fault s ≢ Fault.request_lost
      → value (consume redis ticket s).1 (build_key ticket) ≡ none
  unfolding consume
  consume_empties ticket s sent = ground (
    arith,
    laws.getdel_value (build_key ticket) (redis.arrive s) (build_key ticket),
    =?_refl (build_key ticket),
  )

  consume_reached :
      (ticket : Text) (s : State) (user_id : ℤ)
      → (consume redis ticket s).0 ≡ ok (some user_id)
      → redis.fault s ≢ Fault.request_lost
  unfolding consume
  consume_reached ticket s user_id h = ground arith

  consume_missing :
      (ticket : Text) (s : State) (user_id : ℤ)
      → value (redis.arrive s) (build_key ticket) ≡ none
      → (consume redis ticket s).0 ≢ ok (some user_id)
  unfolding consume
  consume_missing ticket s user_id h =
      ground (arith, laws.getdel_reply (build_key ticket) (redis.arrive s))

  -- A ticket that was issued to a user, and whose key is as it was when the consuming command
  -- arrives, is accepted as that user's by a call that the network delivers, and stands for nobody
  -- in the next call, unless the key has been written in between.
  pub ticket_round_trip :
      (user_id other : ℤ) (ticket : Text) (s : State)
      → let issued = issue redis store user_id ticket s in
        let used = consume redis ticket issued.1 in
        issued.0 ≡ ok ticket
        → value (redis.arrive issued.1) (build_key ticket) ≡ value issued.1 (build_key ticket)
        → redis.fault issued.1 ≡ delivered
        → (value used.1 (build_key ticket) ≡ none
            → value (redis.arrive used.1) (build_key ticket) ≡ none)
        → (used.0 ≡ ok (some user_id)) × ((consume redis ticket used.1).0 ≢ ok (some other))
  ticket_round_trip user_id other ticket s granted lives sent unwritten =
      let issued = issue redis store user_id ticket s in
      let used = consume redis ticket issued.1 in
      (
        consume_stored user_id ticket issued.1 (lives ∙ issue_stores user_id ticket s granted) sent,
        consume_missing ticket used.1 other
            (unwritten (consume_empties ticket issued.1 (ground arith))),
      )

  -- Whatever the network does: if one call returned a user for a ticket, the next call returns none
  -- for it, unless the key has been written in between.
  pub ticket_single_use :
      (user_id other : ℤ) (ticket : Text) (s : State)
      → let used = consume redis ticket s in
        used.0 ≡ ok (some user_id)
        → (value used.1 (build_key ticket) ≡ none
            → value (redis.arrive used.1) (build_key ticket) ≡ none)
        → (consume redis ticket used.1).0 ≢ ok (some other)
  ticket_single_use user_id other ticket s h unwritten =
      let used = consume redis ticket s in
      consume_missing ticket used.1 other
        (unwritten (consume_empties ticket s (consume_reached ticket s user_id h)))
