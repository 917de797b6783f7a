-- ===== src/Sessions.antt =====
-- dependencies.py: `get_session`, the session of a request; database.py: what is done to each new
-- connection of SQLite. The session and the connection are SQLAlchemy's and sqlite3's, and are
-- parameters; their documented behaviour is stated as laws.
pub mod Laws
pub mod Release
pub mod ForeignKeys
pub mod Memory
use fastapi_task_api.Base.{
  ℕ, ◌≡◌, Bool, true, false, Result, ok, err, Error, Exec, pure, raise, continue, ◌>>=◌, ◌>>◌,
  finally, conclude, if◌then◌else◌,
}
use fastapi_task_api.Base.Text.{Text, codes}

pub record SessionCalls : Type 1 where
  -- the session, the connection that it holds, and the database
  pub State : Type 0
  -- `SessionFactory()`
  pub open_session : Exec State (Unit {0})
  pub rollback : Exec State (Unit {0})
  pub close : Exec State (Unit {0})

module _ (calls : SessionCalls) (is_exception : Error → Bool) where
  open calls use {State, rollback}

  module _ {A : Type 0} where
    -- `except Exception: session.rollback(); raise`, by whether the class of what was raised derives
    -- from `Exception`, as `CancelledError` does not.
    unfoldable pub or_rollback : Result A × State → Result A × State
    or_rollback (ok a, s) = (ok a, s)
    or_rollback (err e, s) = if is_exception e then (rollback >> raise e) s else (err e, s)

    -- What a request does with its session is `request`; what ends it is raised at the `yield`.
    unfoldable pub get_session : Exec State A → Exec State A
    unfolding or_rollback
    get_session request = calls.open_session >> finally (λ s. or_rollback (request s)) calls.close

-- A connection of the module sqlite3.
pub record SqliteConnection : Type 1 where
  pub State : Type 0
  -- the values of the attribute `autocommit`, and `True` among them
  pub Autocommit : Type 0
  pub autocommit_on : Autocommit
  pub autocommit : State → Autocommit
  pub set_autocommit : Autocommit → Exec State (Unit {0})
  -- `connection.cursor()`, and its `execute` and `close`
  pub open_cursor : Exec State (Unit {0})
  pub execute : Text → Exec State (Unit {0})
  pub close_cursor : Exec State (Unit {0})

abbrev pub foreign_keys_on : Text
foreign_keys_on = codes "PRAGMA foreign_keys=ON"

module _ (connection : SqliteConnection) where
  open connection use {
    State, Autocommit, autocommit_on, autocommit, set_autocommit, open_cursor, execute,
    close_cursor,
  }

  -- What follows the reading of `previous_autocommit`.
  unfoldable pub enable_from : Autocommit → Exec State (Unit {0})
  enable_from previous_autocommit =
      set_autocommit autocommit_on
      >> open_cursor
      >> finally (execute foreign_keys_on) (close_cursor >> set_autocommit previous_autocommit)

  unfoldable pub enable_sqlite_foreign_keys : Exec State (Unit {0})
  unfolding enable_from
  enable_sqlite_foreign_keys s = enable_from (autocommit s) s
