-- ===== src/Tests/TaskRoutes.antt =====
-- routers/tasks.py on concrete requests.
use fastapi_task_api.Base.{inl, arith, ◌≡◌, ◌≢◌, refl, true, Option, none, some, Result, ok, err}
use fastapi_task_api.Base.Int.{ℤ, pos}
use fastapi_task_api.Base.Text.{Text, codes}
use fastapi_task_api.Base.Eq.{text_eq, int_eq}
use fastapi_task_api.Base.Dict.{lookup}
use fastapi_task_api.Database.Tables.{Tables, tables, tables_laws}
use fastapi_task_api.Models.{
  is_task_create, TaskCreate, TaskResponse, apply_update, response_of, is_task_base, is_title,
  is_description, is_priority,
}
use fastapi_task_api.Redis.{delivered, request_lost}
use fastapi_task_api.Redis.Server.{Memory, tick, quiet, quiet_laws, empty}
use fastapi_task_api.TaskCache.Expiry.{OnlyExpires}
use fastapi_task_api.TaskCache.Coherence.{IsCoherent, Exactly}
use fastapi_task_api.TaskCacheDependencies.{
  task_not_found, TaskWorld, serve_row, find_owned_task, get_cached_owned_task_or_404,
}
use fastapi_task_api.TaskRoutes.{get_pagination, create_task, update_task, delete_task, new_record}
use fastapi_task_api.TaskRoutes.Invalidation.{IsCoherentBut}
use fastapi_task_api.TaskRoutes.Writes.{
  answers, update-IsCoherent, delete-IsCoherent, create-IsCoherent, foreign_untouched,
}
use fastapi_task_api.TaskRoutes.Answers.{answers_at}
use fastapi_task_api.TaskCache.{lookup_task}
use fastapi_task_api.TaskCacheDependencies.Reads.{SecondLookupFails}
use fastapi_task_api.TaskRoutes.ReadYourWrites.{IsRead, write_then_read}
use fastapi_task_api.TaskRoutes.Races.{stale_fill}
use fastapi_task_api.Database.Laws.{owned_by}
use fastapi_task_api.Tests.Json.{tagged, tagged_laws}
use fastapi_task_api.Tests.Tasks.{
  chores, done, done_update, db, settings, flaky, flaky_laws, cached, done_validated,
  rows_valid_lem, chores-IsValidRow, cached-IsCoherent,
}

not_lost : delivered ≢ request_lost
not_lost h = cc

-- The task is cached, and the database has it.
abbrev cached_world : TaskWorld flaky tables
cached_world = record { redis_state = cached; db = db }

but_arrives :
    (E : ℤ → ℤ → Option TaskResponse) (o i : ℤ) (s : Memory)
    → IsCoherentBut flaky flaky_laws tagged E o i s
    → IsCoherentBut flaky flaky_laws tagged E o i (tick s)
but_arrives E o i s c = record { entry = c.entry }

found_chores : tables_laws.row db (pos 2) ≡ some chores
unfolding lookup
found_chores = refl

abbrev answers_of : Tables → ℤ → ℤ → Option TaskResponse
answers_of = answers flaky tables tagged settings flaky_laws tables_laws

abbrev updated : Result TaskResponse × TaskWorld flaky tables
updated = update_task flaky tables tagged settings (pos 1) (pos 2) done_update cached_world

update-IsCoherent_example :
    let r' = apply_update done_update chores in
    let db' = (tables.update_task r' db).1 in
    (updated.0 ≡ ok (response_of r'))
    × (updated.1.db ≡ db')
    × (answers_of db' (pos 1) (pos 2) ≡ some (response_of r'))
    × IsCoherent flaky flaky_laws tagged (Exactly (answers_of db')) updated.1.redis_state
update-IsCoherent_example =
    update-IsCoherent flaky tables tagged settings flaky_laws tables_laws (pos 1) (pos 2) done
      done_update chores cached_world found_chores refl chores-IsValidRow done_validated refl refl
      not_lost cached-IsCoherent
      (but_arrives (answers_of (tables.update_task (apply_update done_update chores) db).1) (pos 1)
        (pos 2))

abbrev removed : Result (Unit {0}) × TaskWorld flaky tables
removed = delete_task flaky tables tagged settings (pos 1) (pos 2) cached_world

delete-IsCoherent_example :
    let db' = (tables.delete_task (pos 2) db).1 in
    (removed.0 ≡ ok tt)
    × (removed.1.db ≡ db')
    × ((o' : ℤ) → answers_of db' o' (pos 2) ≡ none)
    × IsCoherent flaky flaky_laws tagged (Exactly (answers_of db')) removed.1.redis_state
delete-IsCoherent_example =
    delete-IsCoherent flaky tables tagged settings flaky_laws tables_laws (pos 1) (pos 2) chores
      cached_world found_chores refl refl not_lost cached-IsCoherent
      (but_arrives (answers_of (tables.delete_task (pos 2) db).1) (pos 1) (pos 2))

abbrev pub shopping : TaskCreate
shopping = record {
  title = codes "shop";
  description = none;
  priority = pos 1;
  due_date = some 738000;
}

pub shopping-accepted : is_task_create shopping ≡ true
unfolding is_task_create is_task_base is_title is_description is_priority
shopping-accepted = refl

abbrev created : Result TaskResponse × TaskWorld flaky tables
created = create_task flaky tables tagged settings (pos 1) shopping cached_world

create-IsCoherent_example :
    let i = tables_laws.next_id db in
    let r = new_record (pos 1) shopping i in
    let db' = (tables.insert_task (new_record (pos 1) shopping) db).1 in
    (created.0 ≡ ok (response_of r))
    × (created.1.db ≡ db')
    × (tables_laws.row db i ≡ none)
    × (answers_of db' (pos 1) i ≡ some (response_of r))
    × IsCoherent flaky flaky_laws tagged (Exactly (answers_of db')) created.1.redis_state
create-IsCoherent_example =
    create-IsCoherent flaky tables tagged settings flaky_laws tables_laws (pos 1) shopping
      cached_world shopping-accepted refl refl not_lost cached-IsCoherent
      (but_arrives (answers_of (tables.insert_task (new_record (pos 1) shopping) db).1) (pos 1)
        (tables_laws.next_id db))

-- The user 3 asks for the task of the user 1.
not_found : owned_by (pos 3) (tables_laws.row db (pos 2)) ≡ none
unfolding lookup
not_found = refl

foreign_untouched_example :
    (update_task flaky tables tagged settings (pos 3) (pos 2) done_update cached_world
      ≡ (err task_not_found, cached_world))
    × (delete_task flaky tables tagged settings (pos 3) (pos 2) cached_world
        ≡ (err task_not_found, cached_world))
foreign_untouched_example =
    foreign_untouched flaky tables tagged settings flaky_laws tables_laws (pos 3) (pos 2)
      done_update cached_world refl not_found

first_page : get_pagination (pos 0) (pos 20) ≡ some (0, 20)
unfolding get_pagination
first_page = refl

quiet_value : (s : Memory) (k : Text) → quiet_laws.value s k ≡ quiet_laws.value s k
quiet_value s k = refl

-- The read took the task as it was before the update.
stale_fill_example :
    let r' = apply_update done_update chores in
    let w : TaskWorld quiet tables = record { redis_state = empty; db = db } in
    let updated = update_task quiet tables tagged settings (pos 1) (pos 2) done_update w in
    let filled = serve_row quiet tables tagged settings (pos 1) (pos 2) (some chores) updated.1 in
    (find_owned_task quiet tables (pos 2) (pos 1) w ≡ (ok (some chores), w))
    × (updated.0 ≡ ok (response_of r'))
    × (filled.0 ≡ ok (response_of chores))
    × (answers_at tables tables_laws filled.1.db (pos 1) (pos 2) ≡ some (response_of r'))
    × ((get_cached_owned_task_or_404 quiet tables tagged settings
          (λ n s. s)
          (pos 1)
          (pos 2)
          (codes "t")
          filled.1).0
        ≡ ok (response_of chores))
stale_fill_example =
    stale_fill quiet tables tagged settings quiet_laws tables_laws tagged_laws (λ s. refl)
      quiet_value (λ n s. s) (pos 1) (pos 2) done done_update chores (codes "t")
      (record { redis_state = empty; db = db }) found_chores refl chores-IsValidRow done_validated
      refl refl

only_expires : OnlyExpires flaky flaky_laws (λ n s. s)
only_expires = record { arrives = λ s k. inl refl; sleeps = λ n s k. inl refl }

write_then_read_example :
    let read =
      get_cached_owned_task_or_404 flaky tables tagged settings
        (λ n s. s)
        (pos 1)
        (pos 2)
        (codes "t") in
    let Fails = λ (w' : TaskWorld flaky tables).
      SecondLookupFails flaky tagged settings
        (pos 1)
        (pos 2)
        (codes "t")
        (lookup_task flaky tagged (pos 1) (pos 2) w'.redis_state).1 in
    IsRead
      (some (response_of (apply_update done_update chores)))
      (Fails updated.1)
      (read updated.1).0
    × IsRead none (Fails removed.1) (read removed.1).0
write_then_read_example =
    write_then_read flaky tables tagged settings flaky_laws tables_laws tagged_laws (λ n s. s)
      only_expires (omega arith) (omega arith) (pos 1) (pos 2) done done_update chores (codes "t")
      cached_world rows_valid_lem found_chores refl done_validated refl refl refl not_lost
      cached-IsCoherent
