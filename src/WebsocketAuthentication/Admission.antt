-- ===== src/WebsocketAuthentication/Admission.antt =====
-- routers/auth.py, websocket_authentication.py: from a ticket to a connection.
use fastapi_task_api.Base.{
  ℕ, ap, sym, ◌∙◌, subst, Option-cases, Bool-cases, Option, ◌≡◌, ◌≢◌, true, false, none, some, ok,
  err, ◌∷◌, ◌⊎◌, inl, inr, arith, Result,
}
use fastapi_task_api.Base.Int.{ℤ}
use fastapi_task_api.Base.Text.{Text}
use fastapi_task_api.Accounts.{UserTable, statement}
use fastapi_task_api.Accounts
use fastapi_task_api.AuthRoutes.{issue_websocket_ticket}
use fastapi_task_api.Models.{UserRecord}
use fastapi_task_api.Redis
use fastapi_task_api.Redis.{Redis, Fault, delivered}
use fastapi_task_api.UserModels.{ticket_response, WebSocketTicketResponse}
use fastapi_task_api.WebsocketAuthentication.{
  consume_websocket_ticket, check_ticket, get_websocket_current_user, no_credentials,
}
use fastapi_task_api.WebsocketTickets.{WebSocketTicketStore, build_key, issue, consume}
use fastapi_task_api.WebsocketTickets.SingleUse.{ticket_round_trip}

module _ (table : UserTable) (laws : Accounts.Laws.Laws table) where
  -- While the table works, a WebSocket is opened for the user of the id if the user is there and
  -- active, and is refused with 1008 otherwise.
  pub websocket_user :
      (i : ℤ) (s : table.State)
      → table.fails s ≡ false
      → let r = (get_websocket_current_user table i s).0 in
        ((u : UserRecord) × (laws.row (table.arrive s) i ≡ some u)
          × (u.is_active ≡ true)
          × (r ≡ ok u))
        ⊎ ((r ≡ err no_credentials)
            × ((u : UserRecord) → laws.row (table.arrive s) i ≡ some u → u.is_active ≡ false))
  unfolding get_websocket_current_user statement
  websocket_user i s works = elim (Option-cases (laws.row (table.arrive s) i)) [
    | inl absent ↦ inr (
      ground (arith, works, absent, laws.select_user_row i (table.arrive s)),
      λ u found. ground (arith, absent, found),
    )
    | inr (u, found) ↦ elim (Bool-cases u.is_active) [
      | inl active ↦ inl (
        u,
        found,
        active,
        ground (arith, works, found, active, laws.select_user_row i (table.arrive s)),
      )
      | inr inactive ↦ inr (
        ground (arith, works, found, inactive, laws.select_user_row i (table.arrive s)),
        λ u' found'. ground (arith, found, found', inactive),
      )
    ]
  ]

module _ (redis : Redis) (laws : Redis.Laws.Laws redis) (store : WebSocketTicketStore) where
  open redis use {State}
  open laws use {value}

  issued_lem :
      (expires_in i : ℤ) (ticket : Text) (s : State) (response : WebSocketTicketResponse)
      → (issue_websocket_ticket redis store expires_in i ticket s).0 ≡ ok response
      → ((issue redis store i ticket s).0 ≡ ok ticket)
        × (response ≡ record { ticket = ticket; expires_in = expires_in })
        × ((issue_websocket_ticket redis store expires_in i ticket s).1
            ≡ (issue redis store i ticket s).1)
  unfolding issue_websocket_ticket issue ticket_response
  issued_lem expires_in i ticket s response h = ground arith

  check_ticket_lem :
      (r : Result (Option ℤ)) (s : State)
      → ((check_ticket (r, s)).1 ≡ s) × ((i : ℤ) → (check_ticket (r, s)).0 ≡ ok i → r ≡ ok (some i))
  check_ticket_lem r s = (ground arith, λ i h. ground (arith, h))

  consumed_lem :
      (c : ℕ) (t : Text) (s : State)
      → ((consume_websocket_ticket redis (c ∷ t) s).1 ≡ (consume redis (c ∷ t) s).1)
        × ((i : ℤ)
            → (consume_websocket_ticket redis (c ∷ t) s).0 ≡ ok i
            → (consume redis (c ∷ t) s).0 ≡ ok (some i))
        × ((i : ℤ)
            → (consume redis (c ∷ t) s).0 ≡ ok (some i)
            → (consume_websocket_ticket redis (c ∷ t) s).0 ≡ ok i)
  unfolding consume_websocket_ticket
  consumed_lem c t s =
      let r = consume redis (c ∷ t) s in
      let (kept, found) = check_ticket_lem r.0 r.1 in (kept, found, λ i h. ground (arith, h))

  -- A ticket that the route issued to a user opens a WebSocket for that user: if its key is as it was
  -- when the consuming command arrives, and the network delivers that call, the ticket is taken for
  -- the user's id, and for nobody's in the next attempt, unless the key has been written in between.
  -- While the table works, the id is that of the user, who is still there and active.
  pub ticket_admits :
      (table : UserTable) (users : Accounts.Laws.Laws table) (expires_in : ℤ) (u : UserRecord)
      (c : ℕ) (t : Text) (response : WebSocketTicketResponse) (s : State) (d : table.State)
      → let issued = issue_websocket_ticket redis store expires_in u.id (c ∷ t) s in
        let used = consume_websocket_ticket redis (c ∷ t) issued.1 in
        let key = build_key (c ∷ t) in
        issued.0 ≡ ok response
        → value (redis.arrive issued.1) key ≡ value issued.1 key
        → redis.fault issued.1 ≡ delivered
        → (value used.1 key ≡ none → value (redis.arrive used.1) key ≡ none)
        → table.fails d ≡ false
        → users.row (table.arrive d) u.id ≡ some u
        → u.is_active ≡ true
        → (response ≡ record { ticket = c ∷ t; expires_in = expires_in })
          × (used.0 ≡ ok u.id)
          × ((get_websocket_current_user table u.id d).0 ≡ ok u)
          × ((other : ℤ) → (consume_websocket_ticket redis (c ∷ t) used.1).0 ≢ ok other)
  unfolding get_websocket_current_user statement
  ticket_admits table users expires_in u c t response s d granted lives sent unwritten works found
        active =
      let ticket = c ∷ t in
      let key = build_key ticket in
      let (stored, answer, same) = issued_lem expires_in u.id ticket s response granted in
      let s₁ = (issue redis store u.id ticket s).1 in
      let s₁' = (issue_websocket_ticket redis store expires_in u.id ticket s).1 in
      let (kept, back, forth) = consumed_lem c t s₁' in
      let s₂' = (consume_websocket_ticket redis ticket s₁').1 in
      let trip = λ (other : ℤ).
        ticket_round_trip redis laws store u.id other ticket s stored
          (subst (λ x. value (redis.arrive x) key ≡ value x key) same lives)
          (subst (λ x. redis.fault x ≡ delivered) same sent)
          (subst (λ x. value x key ≡ none → value (redis.arrive x) key ≡ none)
            (kept ∙ ap (λ x. (consume redis ticket x).1) same) unwritten) in
      let again = consumed_lem c t s₂' in
      (
        answer,
        forth u.id (ap (λ x. (consume redis ticket x).0) same ∙ (trip u.id).0),
        ground (arith, works, found, active, users.select_user_row u.id (table.arrive d)),
        λ other h. (trip other).1 (
            ap (λ x. (consume redis ticket x).0)
              (sym (kept ∙ ap (λ x. (consume redis ticket x).1) same))
            ∙ again.1 other h),
      )
