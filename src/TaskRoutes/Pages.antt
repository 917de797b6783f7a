-- ===== src/TaskRoutes/Pages.antt =====
-- routers/tasks.py: what `get_tasks` lists.
use fastapi_task_api.Base.{
  ℕ, zero, suc, ◌≤◌, ◌≡◌, refl, false, some, ok, List, [], ◌∷◌, length, take, drop, map, All, arith,
}
use fastapi_task_api.Base.Int.{ℤ}
use fastapi_task_api.Models.{TaskRecord, response_of}
use fastapi_task_api.Models.Validation.{IsValidRow, validate_response_row}
use fastapi_task_api.Database
use fastapi_task_api.Database.{Database, execute}
use fastapi_task_api.Redis.{Redis}
use fastapi_task_api.TaskCacheDependencies.{TaskWorld, on_database}
use fastapi_task_api.TaskRoutes.{get_pagination, validate_all, get_tasks}

length-take : {A : Type 0} (n : ℕ) (xs : List A) → length (take n xs) ≤ n
length-take zero xs = omega arith
length-take (suc n) [] = omega arith
length-take (suc n) (x ∷ xs) = omega (arith, length-take n xs)

take-All : {A : Type 0} (P : A → Type 0) (n : ℕ) (xs : List A) → All P xs → All P (take n xs)
take-All P zero xs h = tt
take-All P (suc n) [] h = tt
take-All P (suc n) (x ∷ xs) h = (h.0, take-All P n xs h.1)

drop-All : {A : Type 0} (P : A → Type 0) (n : ℕ) (xs : List A) → All P xs → All P (drop n xs)
drop-All P zero xs h = h
drop-All P (suc n) [] h = tt
drop-All P (suc n) (x ∷ xs) h = drop-All P n xs h.1

validate_all_lem :
    (rows : List TaskRecord) → All IsValidRow rows → validate_all rows ≡ ok (map response_of rows)
unfolding validate_all
validate_all_lem [] h = refl
validate_all_lem (r ∷ rows) h = simp (validate_response_row r h.0, validate_all_lem rows h.1)

-- `skip` and `limit` as they are accepted are within their bounds.
pagination_bounds : (skip limit : ℤ) (s l : ℕ) → get_pagination skip limit ≡ some (s, l) → l ≤ 100
unfolding get_pagination
pagination_bounds skip limit s l h = ground arith

module _ (redis : Redis) (database : Database) (tables : Database.Laws.Laws database) where
  -- With an accepted pagination, and while the database works and the owner's rows are valid, the
  -- page lists the responses of at most 100 rows, all of them this owner's: of the owner's rows in
  -- the order of their ids, those that follow the first `skip`, up to `limit`. Nothing changes.
  pub page_answers :
      (o skip limit : ℤ) (s l : ℕ) (w : TaskWorld redis database)
      → let page = take l (drop s (database.select_owned o w.db)) in
        get_pagination skip limit ≡ some (s, l)
        → database.fails w.db ≡ false
        → All IsValidRow (database.select_owned o w.db)
        → (get_tasks redis database o (s, l) w ≡ (ok (map response_of page), w))
          × (length page ≤ 100)
          × All (λ r. r.owner_id ≡ o) page
  unfolding get_tasks on_database execute
  page_answers o skip limit s l w accepted works valid =
      let rows = database.select_owned o w.db in
      let page = take l (drop s rows) in
      let checked =
        validate_all_lem page
          (take-All IsValidRow l (drop s rows) (drop-All IsValidRow s rows valid)) in
      (
        simp (works, checked),
        omega (arith, length-take l (drop s rows), pagination_bounds skip limit s l accepted),
        take-All (λ r. r.owner_id ≡ o) l (drop s rows)
            (drop-All (λ r. r.owner_id ≡ o) s rows (tables.select_owned_owner o w.db)),
      )
