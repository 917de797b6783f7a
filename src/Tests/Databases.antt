-- ===== src/Tests/Databases.antt =====
-- Sessions and migrations on concrete databases.
use fastapi_task_api.Base.{
  ◌≡◌, refl, Bool, true, false, Result, ok, err, database_error, other_error, Error, ◌>>◌, none,
  some, raise,
}
use fastapi_task_api.Sessions.{or_rollback, get_session, enable_sqlite_foreign_keys}
use fastapi_task_api.Sessions.Release.{session_released}
use fastapi_task_api.Sessions.ForeignKeys.{connection_enforces}
use fastapi_task_api.Sessions.Memory.{Desk, desk, desk_laws, write, commit, Wire, wire, wire_laws}
use fastapi_task_api.Migrations.{
  users, tasks, user_record_table, task_record_table, upgrade_d192789f7e04, upgrade_10cca2d2581a,
  downgrade_d192789f7e04, downgrade_10cca2d2581a,
}
use fastapi_task_api.Migrations.Laws.{Schema}
use fastapi_task_api.Migrations.History.{upgraded_models, upgrade_downgrade}
use fastapi_task_api.Migrations.Memory.{memory, memory_laws}

-- Every exception but the one of another class.
abbrev is_exception : Error → Bool
is_exception other_error = false
is_exception e = true

abbrev fresh : Desk
fresh = record { stored = 1; written = 1; active = false; broken = false }

abbrev returned : Result (Unit {0})
returned = ok tt

-- A request that commits 2, and fails after it has written 3.
session_released_example :
    let ended =
      get_session desk is_exception
        (write 2 >> commit >> write 3 >> raise {A = Unit {0}} database_error)
        fresh in
    (ended.1.stored ≡ 2)
    × (ended.1.active ≡ false)
    × ((returned ≡ returned) → ended.0 ≡ err database_error)
unfolding get_session or_rollback
session_released_example =
    session_released desk desk_laws is_exception
      (write 2 >> commit >> write 3 >> raise {A = Unit {0}} database_error) fresh refl refl

abbrev legacy : Wire
legacy = record { on = false; enforces = false; locked = false }

connection_enforces_example :
    let ended = enable_sqlite_foreign_keys wire legacy in
    (ended.0 ≡ ok tt) × (ended.1.on ≡ false) × (returned ≡ returned → ended.1.enforces ≡ true)
unfolding enable_sqlite_foreign_keys
connection_enforces_example = connection_enforces wire wire_laws legacy refl

abbrev bare : Schema
bare n = none

upgraded_models_example :
    let done = (upgrade_d192789f7e04 memory >> upgrade_10cca2d2581a memory) bare in
    (done.0 ≡ ok tt)
    × (done.1 users ≡ some user_record_table)
    × (done.1 tasks ≡ some task_record_table)
    × ((n : _) → (n ≡ users → ⊥) → (n ≡ tasks → ⊥) → done.1 n ≡ none)
upgraded_models_example = upgraded_models memory memory_laws bare refl refl

upgrade_downgrade_example :
    let once = upgrade_d192789f7e04 memory bare in
    let back = (upgrade_10cca2d2581a memory >> downgrade_10cca2d2581a memory) once.1 in
    let ended = downgrade_d192789f7e04 memory back.1 in
    (once.0 ≡ ok tt)
    × (back.0 ≡ ok tt)
    × ((n : _) → back.1 n ≡ once.1 n)
    × (ended.0 ≡ ok tt)
    × ((n : _) → ended.1 n ≡ none)
upgrade_downgrade_example = upgrade_downgrade memory memory_laws bare refl refl (λ n. (tt, tt))
