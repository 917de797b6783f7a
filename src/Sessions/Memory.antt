-- ===== src/Sessions/Memory.antt =====
-- A session and a connection in memory that meet the laws, for concrete runs.
use fastapi_task_api.Base.{
  ℕ, ◌≡◌, refl, Bool, true, false, not, Result, ok, err, database_error, Exec, if◌then◌else◌, arith,
}
use fastapi_task_api.Sessions.{SessionCalls, SqliteConnection}
use fastapi_task_api.Sessions.Laws.{SessionLaws, ConnectionLaws}

-- A counter stands for the data: its committed value, and the one that the transaction has written.
pub record Desk : Type 0 where
  pub stored : ℕ
  pub written : ℕ
  pub active : Bool
  -- the connection is broken, and every call of the session raises
  pub broken : Bool

abbrev pub or_broken : Desk → Desk → Result (Unit {0}) × Desk
or_broken d d' = if d.broken then (err database_error, d) else (ok tt, d')

abbrev pub write : ℕ → Exec Desk (Unit {0})
write n d = or_broken d (record d { written = n; active = true })

abbrev pub commit : Exec Desk (Unit {0})
commit d = or_broken d (record d { stored = d.written; active = false })

abbrev pub undo : Exec Desk (Unit {0})
undo d = or_broken d (record d { written = d.stored; active = false })

abbrev pub desk : SessionCalls
desk = record {
  State = Desk;
  open_session = λ d. (ok tt, record d { written = d.stored; active = false });
  rollback = undo;
  close = undo;
}

pub undo_stored : (d : Desk) → (undo d).1.stored ≡ d.stored
undo_stored d = ground arith

pub undo_active : (d : Desk) → (undo d).0 ≡ ok tt → (undo d).1.active ≡ false
undo_active d h = ground arith

abbrev pub desk_laws : SessionLaws desk
desk_laws = record {
  Data = ℕ;
  committed = λ d. d.stored;
  is_active = λ d. d.active;
  open_committed = λ d. refl;
  rollback_committed = undo_stored;
  close_committed = undo_stored;
  close_active = undo_active;
}

-- A connection, whose `autocommit` is on or off; off, there is always a transaction.
pub record Wire : Type 0 where
  pub on : Bool
  pub enforces : Bool
  -- the next statement fails
  pub locked : Bool

abbrev pub pragma : Exec Wire (Unit {0})
pragma w =
    if w.locked
    then (err database_error, w)
    else (ok tt, record w { enforces = if w.on then true else w.enforces })

abbrev pub wire : SqliteConnection
wire = record {
  State = Wire;
  Autocommit = Bool;
  autocommit_on = true;
  autocommit = λ w. w.on;
  set_autocommit = λ m w. (ok tt, record w { on = m });
  open_cursor = λ w. (ok tt, w);
  execute = λ text. pragma;
  close_cursor = λ w. (ok tt, w);
}

pub pragma_mode : (w : Wire) → not (pragma w).1.on ≡ not w.on
pragma_mode w = ground arith

pub pragma_lem :
    (w : Wire)
    → (pragma w).0 ≡ ok tt
    → (pragma w).1.enforces ≡ (if not w.on then w.enforces else true)
pragma_lem w h = ground arith

abbrev pub wire_laws : ConnectionLaws wire
wire_laws = record {
  enforces_foreign_keys = λ w. w.enforces;
  in_transaction = λ w. not w.on;
  set_autocommit_mode = λ m w h. refl;
  set_autocommit_returns = λ m w h. refl;
  autocommit_transaction = λ w h. refl;
  set_autocommit_enforces = λ m w. refl;
  open_returns = λ w. refl;
  open_transaction = λ w. refl;
  open_enforces = λ w. refl;
  pragma_transaction = pragma_mode;
  pragma_enforces = pragma_lem;
  close_returns = λ w. refl;
  close_transaction = λ w. refl;
  close_enforces = λ w. refl;
}
