-- ===== src/Sessions/Release.antt =====
-- dependencies.py: what is left of the session of a request.
use fastapi_task_api.Base.{
  ◌≡◌, refl, Bool, Result, ok, err, Error, Exec, Bool-cases, inl, inr, false, ap, continue, finally,
  ◌∙◌, raise,
}
use fastapi_task_api.Base.Returning.{then_ok, finally_ok}
use fastapi_task_api.Sessions.{SessionCalls, or_rollback, get_session}
use fastapi_task_api.Sessions.Laws.{SessionLaws}

raise_state :
    {S A : Type 0} (B : Type 0) (e : Error) (p : Result A × S)
    → (continue {B = B} (λ _. raise e) p).1 ≡ p.1
raise_state B e (ok u, s) = refl
raise_state B e (err e', s) = refl

module _ (calls : SessionCalls) (laws : SessionLaws calls) (is_exception : Error → Bool)
    {A : Type 0} where
  open calls use {State, open_session, rollback, close}
  open laws use {committed, is_active}

  or_rollback_committed :
      (p : Result A × State) → committed (or_rollback calls is_exception p).1 ≡ committed p.1
  unfolding or_rollback
  or_rollback_committed (ok a, s) = refl
  or_rollback_committed (err e, s) = elim (Bool-cases (is_exception e)) [
    | inl caught ↦
        rw caught (ap committed (raise_state A e (rollback s)) ∙ laws.rollback_committed s)
    | inr passed ↦ rw passed refl
  ]

  or_rollback_result :
      (p : Result A × State) → (rollback p.1).0 ≡ ok tt → (or_rollback calls is_exception p).0 ≡ p.0
  unfolding or_rollback
  or_rollback_result (ok a, s) works = refl
  or_rollback_result (err e, s) works = elim (Bool-cases (is_exception e)) [
    | inl caught ↦ rw caught (ap (λ q. q.0) (then_ok rollback (raise e) tt s works))
    | inr passed ↦ rw passed refl
  ]

  -- When opening the session and closing it succeed, a request that ran in it, whichever way it ended,
  -- leaves committed exactly what it had committed itself, and a session without transaction and
  -- connection. It ends as it did, returning or raising, unless the rollback raises.
  pub session_released :
      (request : Exec State A) (s : State)
      → let done = request (open_session s).1 in
        let handled = or_rollback calls is_exception done in
        let ended = get_session calls is_exception request s in
        (open_session s).0 ≡ ok tt
        → (close handled.1).0 ≡ ok tt
        → (committed ended.1 ≡ committed done.1)
          × (is_active ended.1 ≡ false)
          × ((rollback done.1).0 ≡ ok tt → ended.0 ≡ done.0)
  unfolding get_session
  session_released request s opens closes =
      let s' = (open_session s).1 in
      let done = request s' in
      let handled = or_rollback calls is_exception done in
      let run =
        then_ok open_session (finally (λ s. or_rollback calls is_exception (request s)) close) tt s
          opens
        ∙ finally_ok (λ s. or_rollback calls is_exception (request s)) close tt s' closes in
      rw run (
        laws.close_committed handled.1 ∙ or_rollback_committed done,
        laws.close_active handled.1 closes,
        or_rollback_result done,
      )
