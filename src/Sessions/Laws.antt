-- ===== src/Sessions/Laws.antt =====
-- The documented behaviour of a session of SQLAlchemy and of a connection of sqlite3.
use fastapi_task_api.Base.{◌≡◌, Bool, true, false, ok, if◌then◌else◌}
use fastapi_task_api.Sessions.{SessionCalls, SqliteConnection, foreign_keys_on}

-- What is committed stays committed, and a session that is closed has ended its transaction and given
-- its connection back.
pub record SessionLaws (calls : SessionCalls) : Type 1 where
  -- what the database has committed
  pub Data : Type 0
  pub committed : calls.State → Data
  -- the session has a transaction, or a connection
  pub is_active : calls.State → Bool
  pub open_committed : (s : calls.State) → committed (calls.open_session s).1 ≡ committed s
  pub rollback_committed : (s : calls.State) → committed (calls.rollback s).1 ≡ committed s
  pub close_committed : (s : calls.State) → committed (calls.close s).1 ≡ committed s
  pub close_active :
      (s : calls.State) → (calls.close s).0 ≡ ok tt → is_active (calls.close s).1 ≡ false

-- `PRAGMA foreign_keys` is a no-op within a transaction; with `autocommit` on, there is a transaction
-- only after an explicit `BEGIN`, and the attribute can be set to any value while there is none.
pub record ConnectionLaws (connection : SqliteConnection) : Type 0 where
  pub enforces_foreign_keys : connection.State → Bool
  pub in_transaction : connection.State → Bool
  pub set_autocommit_mode :
      (m : connection.Autocommit) (s : connection.State)
      → (connection.set_autocommit m s).0 ≡ ok tt
      → connection.autocommit (connection.set_autocommit m s).1 ≡ m
  pub set_autocommit_returns :
      (m : connection.Autocommit) (s : connection.State)
      → in_transaction s ≡ false
      → (connection.set_autocommit m s).0 ≡ ok tt
  pub autocommit_transaction :
      (s : connection.State)
      → (connection.set_autocommit connection.autocommit_on s).0 ≡ ok tt
      → in_transaction (connection.set_autocommit connection.autocommit_on s).1 ≡ false
  pub set_autocommit_enforces :
      (m : connection.Autocommit) (s : connection.State)
      → enforces_foreign_keys (connection.set_autocommit m s).1 ≡ enforces_foreign_keys s
  pub open_returns : (s : connection.State) → (connection.open_cursor s).0 ≡ ok tt
  pub open_transaction :
      (s : connection.State) → in_transaction (connection.open_cursor s).1 ≡ in_transaction s
  pub open_enforces :
      (s : connection.State)
      → enforces_foreign_keys (connection.open_cursor s).1 ≡ enforces_foreign_keys s
  pub pragma_transaction :
      (s : connection.State)
      → in_transaction (connection.execute foreign_keys_on s).1 ≡ in_transaction s
  pub pragma_enforces :
      (s : connection.State)
      → (connection.execute foreign_keys_on s).0 ≡ ok tt
      → enforces_foreign_keys (connection.execute foreign_keys_on s).1
        ≡ (if in_transaction s then enforces_foreign_keys s else true)
  pub close_returns : (s : connection.State) → (connection.close_cursor s).0 ≡ ok tt
  pub close_transaction :
      (s : connection.State) → in_transaction (connection.close_cursor s).1 ≡ in_transaction s
  pub close_enforces :
      (s : connection.State)
      → enforces_foreign_keys (connection.close_cursor s).1 ≡ enforces_foreign_keys s
