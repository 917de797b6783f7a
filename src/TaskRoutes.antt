-- ===== src/TaskRoutes.antt =====
-- routers/tasks.py, `get_owned_task_or_404` of task_dependencies.py and `get_pagination` of
-- dependencies.py. `owner_id` is `current_user.id`. A commit is the statement that it sends; no other
-- client's statement comes between those of a request. The audit log, written after the response, is
-- left out, and `get_task` is `get_cached_owned_task_or_404`.
pub mod Answers
pub mod Invalidation
pub mod Runs
pub mod Writes
pub mod Races
pub mod ReadYourWrites
pub mod Pages
pub mod Interleaving
use fastapi_task_api.Base.{
  ℕ, ◌&&◌, List, [], ◌∷◌, take, drop, Bool, true, false, Option, none, some, Result, ok, err, Error,
  other_error, validation_error, Exec, continue, pure, raise, ◌>>=◌, ◌>>◌, if◌then◌else◌,
}
use fastapi_task_api.Base.Int.{ℤ, pos, pos_part, leb_ℤ}
use fastapi_task_api.Models.{
  TaskRecord, TaskCreate, TaskUpdate, TaskResponse, validate_response, apply_update,
}
use fastapi_task_api.Database.{Database, execute}
use fastapi_task_api.Redis.{Redis}
use fastapi_task_api.TaskCache.{Json}
use fastapi_task_api.TaskCacheDependencies.{
  CacheSettings, TaskWorld, on_database, find_owned_task, task_not_found, invalidate_cached_task,
}

-- `TaskRecord(**task_create.model_dump(), completed=False, owner_id=current_user.id)`
abbrev pub new_record : ℤ → TaskCreate → ℤ → TaskRecord
new_record owner_id task_create id = record {
  id = id;
  title = task_create.title;
  description = task_create.description;
  priority = task_create.priority;
  completed = false;
  owner_id = owner_id;
  due_date = task_create.due_date;
}

-- `get_pagination`: `skip` is at least 0, and `limit` from 1 to 100; `none` is a rejected request.
unfoldable pub get_pagination : (skip limit : ℤ) → Option (ℕ × ℕ)
get_pagination skip limit =
    if leb_ℤ (pos 0) skip && (leb_ℤ (pos 1) limit && leb_ℤ limit (pos 100))
    then some (pos_part skip, pos_part limit)
    else none

-- `[TaskResponse.model_validate(task_record) for task_record in task_records]`
abbrev pub prepend : TaskResponse → Result (List TaskResponse) → Result (List TaskResponse)
prepend task (ok tasks) = ok (task ∷ tasks)
prepend task (err e) = err e

abbrev pub validated_first :
    Option TaskResponse → Result (List TaskResponse) → Result (List TaskResponse)
validated_first none rest = err validation_error
validated_first (some task) rest = prepend task rest

unfoldable pub validate_all : List TaskRecord → Result (List TaskResponse)
validate_all [] = ok []
validate_all (r ∷ records) = validated_first (validate_response r) (validate_all records)

module _ (redis : Redis) (database : Database) where
  found_or_404 : Option TaskRecord → Exec (TaskWorld redis database) TaskRecord
  found_or_404 none = raise task_not_found
  found_or_404 (some task_record) = pure task_record

  unfoldable pub get_owned_task_or_404 :
      (task_id owner_id : ℤ) → Exec (TaskWorld redis database) TaskRecord
  unfolding found_or_404
  get_owned_task_or_404 task_id owner_id = do
    task_record ← find_owned_task redis database task_id owner_id
    found_or_404 task_record

  -- `session.refresh(task_record)`, which raises `InvalidRequestError` if the row is gone.
  refreshed : Option TaskRecord → Exec (TaskWorld redis database) TaskRecord
  refreshed none = raise other_error
  refreshed (some task_record) = pure task_record

  unfoldable pub refresh : TaskRecord → Exec (TaskWorld redis database) TaskRecord
  unfolding refreshed
  refresh task_record = do
    row ←
        on_database redis database
          (execute database (λ db. (database.select_key task_record.id db, db)))
    refreshed row

  -- `TaskResponse.model_validate(task_record)`
  validated : Option TaskResponse → Exec (TaskWorld redis database) TaskResponse
  validated none = raise validation_error
  validated (some task) = pure task

  unfoldable pub respond : TaskRecord → Exec (TaskWorld redis database) TaskResponse
  unfolding validated
  respond task_record = validated (validate_response task_record)

  unfoldable pub get_tasks : ℤ → ℕ × ℕ → Exec (TaskWorld redis database) (List TaskResponse)
  get_tasks owner_id (skip, limit) = do
    task_records ←
        on_database redis database
          (execute database (λ db. (database.select_owned owner_id db, db)))
    λ w. (validate_all (take limit (drop skip task_records)), w)

module _ (redis : Redis) (database : Database) (json : Json) (c : CacheSettings) where
  unfoldable pub create_task : ℤ → TaskCreate → Exec (TaskWorld redis database) TaskResponse
  create_task owner_id task_create = do
    task_record ←
        on_database redis database
          (execute database (database.insert_task (new_record owner_id task_create)))
    stored ← refresh redis database task_record
    -- `current_user.id` is read again, since the commit has expired the row of the user.
    _ ← on_database redis database (execute database (λ db. (tt, db)))
    _ ← invalidate_cached_task redis database json c owner_id stored.id
    respond redis database stored

  unfoldable pub update_task :
      (owner_id task_id : ℤ) → TaskUpdate → Exec (TaskWorld redis database) TaskResponse
  update_task owner_id task_id task_update = do
    stored_task ← get_owned_task_or_404 redis database task_id owner_id
    _ ←
        on_database redis database
          (execute database (database.update_task (apply_update task_update stored_task)))
    _ ← invalidate_cached_task redis database json c stored_task.owner_id stored_task.id
    stored ← refresh redis database stored_task
    respond redis database stored

  unfoldable pub delete_task : (owner_id task_id : ℤ) → Exec (TaskWorld redis database) (Unit {0})
  delete_task owner_id task_id = do
    stored_task ← get_owned_task_or_404 redis database task_id owner_id
    _ ← on_database redis database (execute database (database.delete_task stored_task.id))
    invalidate_cached_task redis database json c stored_task.owner_id stored_task.id
