-- ===== src/Migrations/History.antt =====
-- migrations/versions: where the upgrades lead from a database without the two tables, and that the
-- downgrades lead back.
use fastapi_task_api.Base.{
  ◌≡◌, ◌≢◌, refl, sym, ◌∙◌, true, false, ok, Exec, ◌>>◌, Option, none, some, arith, Bool-cases, inl,
  inr,
}
use fastapi_task_api.Base.Text.{Text}
use fastapi_task_api.Base.Eq.{◌=?◌, text_eq}
use fastapi_task_api.Base.Returning.{then_ok}
use fastapi_task_api.Migrations.{
  Table, Operations, users, tasks, ix_users_username, ix_tasks_owner_id, due_date, users_table,
  users_index, tasks_table, tasks_index, due_date_column, upgrade_d192789f7e04,
  downgrade_d192789f7e04, upgrade_10cca2d2581a, downgrade_10cca2d2581a, user_record_table,
  task_record_table,
}
use fastapi_task_api.Migrations.Laws.{Schema, put, NotReferring, Runs, Laws}

module _ {S : Type 0} (table : S → Schema) where
  then-Runs :
      (m k : Exec S (Unit {0})) (σ σ' σ'' : Schema)
      → Runs table m σ σ'
      → Runs table k σ' σ''
      → Runs table (m >> k) σ σ''
  then-Runs m k σ σ' σ'' first second s same =
      let (returned, left) = first s same in rw (then_ok m k tt s returned) (second (m s).1 left)

  Runs-to :
      (m : Exec S (Unit {0})) (σ σ' σ'' : Schema)
      → ((n : Text) → σ' n ≡ σ'' n)
      → Runs table m σ σ'
      → Runs table m σ σ''
  Runs-to m σ σ' σ'' same run s here =
      let (returned, left) = run s here in (returned, λ n. left n ∙ same n)

-- A database with these two tables, or without them, and the tables that it has otherwise.
abbrev pub holding : Schema → (of_users of_tasks : Option Table) → Schema
holding σ of_users of_tasks = put tasks of_tasks (put users of_users σ)

put-tasks :
    (σ : Schema) (a b d : Option Table) (n : Text) → put tasks d (holding σ a b) n ≡ holding σ a d n
put-tasks σ a b d n = ground arith

tasks_not_users : (n : Text) → (tasks =? n) ≡ true → (users =? n) ≡ false
tasks_not_users n h = rw (← (text_eq.beq_iff tasks n).0 h) refl

put-users :
    (σ : Schema) (a b d : Option Table) (n : Text) → put users d (holding σ a b) n ≡ holding σ d b n
put-users σ a b d n = ground (arith, tasks_not_users n)

holding-none :
    (σ : Schema) → σ users ≡ none → σ tasks ≡ none → (n : Text) → σ n ≡ holding σ none none n
holding-none σ no_users no_tasks n =
    ground (arith, no_users, no_tasks, text_eq.beq_iff tasks n, text_eq.beq_iff users n)

holding_else :
    (σ : Schema) (a b : Option Table) (n : Text) → n ≢ users → n ≢ tasks → holding σ a b n ≡ σ n
holding_else σ a b n hu ht = ground (arith, text_eq.beq_iff tasks n, text_eq.beq_iff users n)

holding-NotReferring :
    (t : Text) (σ : Schema) (a b : Option Table)
    → NotReferring t a
    → NotReferring t b
    → ((n : Text) → NotReferring t (σ n))
    → (n : Text) → NotReferring t (holding σ a b n)
holding-NotReferring t σ a b ha hb h n = elim (Bool-cases (tasks =? n)) [
  | inl is_tasks ↦ rw is_tasks hb
  | inr other ↦ elim (Bool-cases (users =? n)) [
    | inl is_users ↦ rw (other, is_users) ha
    | inr neither ↦ rw (other, neither) (h n)
  ]
]

-- The table of tasks before its column `due_date`.
abbrev undated : Table
undated = record task_record_table { columns = tasks_table.columns }

module _ (op : Operations) (laws : Laws op) (σ : Schema) where
  open laws use {table}

  on_users :
      (m : Exec op.State (Unit {0})) (a b d : Option Table)
      → Runs table m (holding σ a b) (put users d (holding σ a b))
      → Runs table m (holding σ a b) (holding σ d b)
  on_users m a b d run = Runs-to table m (holding σ a b) _ _ (put-users σ a b d) run

  on_tasks :
      (m : Exec op.State (Unit {0})) (a b d : Option Table)
      → Runs table m (holding σ a b) (put tasks d (holding σ a b))
      → Runs table m (holding σ a b) (holding σ a d)
  on_tasks m a b d run = Runs-to table m (holding σ a b) _ _ (put-tasks σ a b d) run

  upgrade-Runs :
      Runs table
        (upgrade_d192789f7e04 op)
        (holding σ none none)
        (holding σ (some user_record_table) (some undated))
  unfolding upgrade_d192789f7e04
  upgrade-Runs =
      let users_made =
        on_users (op.create_table users users_table) none none (some users_table)
          (laws.create_table_runs users users_table _ refl tt) in
      let users_indexed =
        on_users (op.create_index users users_index) (some users_table) none
          (some user_record_table)
          (laws.create_index_runs users users_index users_table _ refl refl (refl, tt)) in
      let tasks_made =
        on_tasks (op.create_table tasks tasks_table) (some user_record_table) none
          (some tasks_table) (laws.create_table_runs tasks tasks_table _ refl (refl, tt)) in
      let tasks_indexed =
        on_tasks (op.create_index tasks tasks_index) (some user_record_table) (some tasks_table)
          (some undated)
          (laws.create_index_runs tasks tasks_index tasks_table _ refl refl (refl, tt)) in
      then-Runs table _ _ (holding σ none none) _ _
        (then-Runs table _ _ (holding σ none none) _ _
          (then-Runs table _ _ (holding σ none none) _ _ users_made users_indexed) tasks_made)
        tasks_indexed

  add-Runs :
      Runs table
        (upgrade_10cca2d2581a op)
        (holding σ (some user_record_table) (some undated))
        (holding σ (some user_record_table) (some task_record_table))
  unfolding upgrade_10cca2d2581a
  add-Runs =
      on_tasks (op.add_column tasks due_date_column) (some user_record_table) (some undated)
        (some task_record_table)
        (laws.add_column_runs tasks due_date_column undated _ refl (refl, refl))

  drop-Runs :
      Runs table
        (downgrade_10cca2d2581a op)
        (holding σ (some user_record_table) (some task_record_table))
        (holding σ (some user_record_table) (some undated))
  unfolding downgrade_10cca2d2581a
  drop-Runs =
      on_tasks (op.drop_column tasks due_date) (some user_record_table) (some task_record_table)
        (some undated) (laws.drop_column_runs tasks due_date task_record_table _ refl refl refl)

  module _ (no_keys : (n : Text) → NotReferring users (σ n) × NotReferring tasks (σ n)) where
    downgrade-Runs :
        Runs table
          (downgrade_d192789f7e04 op)
          (holding σ (some user_record_table) (some undated))
          (holding σ none none)
    unfolding downgrade_d192789f7e04
    downgrade-Runs =
        let index_dropped =
          on_tasks (op.drop_index tasks ix_tasks_owner_id) (some user_record_table) (some undated)
            (some tasks_table) (laws.drop_index_runs tasks ix_tasks_owner_id undated _ refl refl) in
        let tasks_dropped =
          on_tasks (op.drop_table tasks) (some user_record_table) (some tasks_table) none (
            laws.drop_table_runs tasks tasks_table _ refl (
              holding-NotReferring tasks σ (some user_record_table) (some tasks_table) tt (refl, tt)
                (λ n. (no_keys n).1))) in
        let users_unindexed =
          on_users (op.drop_index users ix_users_username) (some user_record_table) none
            (some users_table)
            (laws.drop_index_runs users ix_users_username user_record_table _ refl refl) in
        let users_dropped = on_users (op.drop_table users) (some users_table) none none (
          laws.drop_table_runs users users_table _ refl
            (holding-NotReferring users σ (some users_table) none tt tt (λ n. (no_keys n).0))) in
        let start = holding σ (some user_record_table) (some undated) in
        then-Runs table _ _ start _ _
          (then-Runs table _ _ start _ _ (then-Runs table _ _ start _ _ index_dropped tasks_dropped)
            users_unindexed)
          users_dropped

module _ (op : Operations) (laws : Laws op) where
  -- On a database without tables `users` and `tasks`, the two upgrades return, and leave the two tables
  -- as the models declare them, with their columns in order, keys and indexes, and all other tables as
  -- they were.
  pub upgraded_models :
      (s : op.State)
      → laws.table s users ≡ none
      → laws.table s tasks ≡ none
      → let done = (upgrade_d192789f7e04 op >> upgrade_10cca2d2581a op) s in
        (done.0 ≡ ok tt)
        × (laws.table done.1 users ≡ some user_record_table)
        × (laws.table done.1 tasks ≡ some task_record_table)
        × ((n : Text) → n ≢ users → n ≢ tasks → laws.table done.1 n ≡ laws.table s n)
  upgraded_models s no_users no_tasks =
      let σ = laws.table s in
      let (returned, left) =
        then-Runs laws.table (upgrade_d192789f7e04 op) (upgrade_10cca2d2581a op)
          (holding σ none none) _ _ (upgrade-Runs op laws σ) (add-Runs op laws σ) s
          (holding-none σ no_users no_tasks) in
      (
        returned,
        left users,
        left tasks,
        λ n hu ht.
            left n ∙ holding_else σ (some user_record_table) (some task_record_table) n hu ht,
      )

  -- On a database without tables `users` and `tasks`, and without keys that refer to them, the second
  -- upgrade and then its downgrade return, after the first upgrade, and leave every table as the first
  -- upgrade did; the downgrade of the first returns then, and leaves every table as it was before.
  pub upgrade_downgrade :
      (s : op.State)
      → laws.table s users ≡ none
      → laws.table s tasks ≡ none
      → ((n : Text) → NotReferring users (laws.table s n) × NotReferring tasks (laws.table s n))
      → let once = upgrade_d192789f7e04 op s in
        let back = (upgrade_10cca2d2581a op >> downgrade_10cca2d2581a op) once.1 in
        let ended = downgrade_d192789f7e04 op back.1 in
        (once.0 ≡ ok tt)
        × (back.0 ≡ ok tt)
        × ((n : Text) → laws.table back.1 n ≡ laws.table once.1 n)
        × (ended.0 ≡ ok tt)
        × ((n : Text) → laws.table ended.1 n ≡ laws.table s n)
  upgrade_downgrade s no_users no_tasks no_keys =
      let σ = laws.table s in
      let start = holding-none σ no_users no_tasks in
      let (returned, made) = upgrade-Runs op laws σ s start in
      let (back, kept) =
        then-Runs laws.table (upgrade_10cca2d2581a op) (downgrade_10cca2d2581a op)
          (holding σ (some user_record_table) (some undated)) _ _ (add-Runs op laws σ)
          (drop-Runs op laws σ) (upgrade_d192789f7e04 op s).1 made in
      let (ended, gone) = downgrade-Runs op laws σ no_keys _ kept in
      (returned, back, λ n. kept n ∙ sym (made n), ended, λ n. gone n ∙ sym (start n))
