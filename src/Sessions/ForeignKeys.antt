-- ===== src/Sessions/ForeignKeys.antt =====
-- database.py: after `enable_sqlite_foreign_keys`, the connection enforces foreign keys, and its mode
-- is the one that it had.
use fastapi_task_api.Base.{
  ◌≡◌, refl, ok, if◌then◌else◌, false, true, ap, continue, finally, ◌>>◌, ◌∙◌,
}
use fastapi_task_api.Base.Returning.{then_ok, finally_ok}
use fastapi_task_api.Sessions.{
  SqliteConnection, foreign_keys_on, enable_from, enable_sqlite_foreign_keys,
}
use fastapi_task_api.Sessions.Laws.{ConnectionLaws}

module _ (connection : SqliteConnection) (laws : ConnectionLaws connection) where
  open connection use {
    State, autocommit_on, autocommit, set_autocommit, open_cursor, execute, close_cursor,
  }
  open laws use {enforces_foreign_keys, in_transaction}

  -- The states after each step.
  abbrev opened : State → State
  opened s = (open_cursor (set_autocommit autocommit_on s).1).1

  abbrev set : State → State
  set s = (execute foreign_keys_on (opened s)).1

  abbrev closed : State → State
  closed s = (close_cursor (set s)).1

  opened_lem :
      (s : State) → (set_autocommit autocommit_on s).0 ≡ ok tt → in_transaction (opened s) ≡ false
  opened_lem s set_on =
      laws.open_transaction (set_autocommit autocommit_on s).1
      ∙ laws.autocommit_transaction s set_on

  closed_lem :
      (s : State) → (set_autocommit autocommit_on s).0 ≡ ok tt → in_transaction (closed s) ≡ false
  closed_lem s set_on =
      laws.close_transaction (set s) ∙ laws.pragma_transaction (opened s) ∙ opened_lem s set_on

  reset_lem :
      (s : State)
      → (set_autocommit autocommit_on s).0 ≡ ok tt
      → (set_autocommit (autocommit s) (closed s)).0 ≡ ok tt
  reset_lem s set_on = laws.set_autocommit_returns (autocommit s) (closed s) (closed_lem s set_on)

  enable_run :
      (s : State)
      → (set_autocommit autocommit_on s).0 ≡ ok tt
      → enable_sqlite_foreign_keys connection s
        ≡ ((execute foreign_keys_on (opened s)).0, (set_autocommit (autocommit s) (closed s)).1)
  unfolding enable_sqlite_foreign_keys enable_from
  enable_run s set_on =
      let pragma = execute foreign_keys_on in
      let restore = set_autocommit (autocommit s) in
      let restored = then_ok close_cursor restore tt (set s) (laws.close_returns (set s)) in
      ap (continue (λ _. finally pragma (close_cursor >> restore)))
        (then_ok (set_autocommit autocommit_on) open_cursor tt s set_on)
      ∙ then_ok open_cursor (finally pragma (close_cursor >> restore)) tt
          (set_autocommit autocommit_on s).1 (laws.open_returns (set_autocommit autocommit_on s).1)
      ∙ finally_ok pragma (close_cursor >> restore) tt (opened s)
          (ap (λ p. p.0) restored ∙ reset_lem s set_on)
      ∙ ap (λ p. ((pragma (opened s)).0, p.1)) restored

  -- When setting the mode succeeds, which it does unless a transaction cannot be committed, the
  -- listener ends as its PRAGMA does, returning or raising, and the connection has the mode again that
  -- it had before. When the PRAGMA returns, the connection enforces foreign keys.
  pub connection_enforces :
      (s : State)
      → (set_autocommit autocommit_on s).0 ≡ ok tt
      → let pragma = execute foreign_keys_on (opened s) in
        let ended = enable_sqlite_foreign_keys connection s in
        (ended.0 ≡ pragma.0)
        × (autocommit ended.1 ≡ autocommit s)
        × (pragma.0 ≡ ok tt → enforces_foreign_keys ended.1 ≡ true)
  connection_enforces s set_on =
      let restored = laws.set_autocommit_mode (autocommit s) (closed s) (reset_lem s set_on) in
      rw (enable_run s set_on) (
        refl,
        restored,
        λ returned.
            laws.set_autocommit_enforces (autocommit s) (closed s)
            ∙ laws.close_enforces (set s)
            ∙ laws.pragma_enforces (opened s) returned
            ∙ ap (λ b. if b then enforces_foreign_keys (opened s) else true) (opened_lem s set_on),
      )
