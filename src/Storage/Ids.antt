-- ===== src/Storage/Ids.antt =====
-- storage.py: a generated id is new.
use fastapi_task_api.Base.{◌≡◌, refl, none, some, List, [], ◌∷◌, if◌then◌else◌, arith, zero, suc}
use fastapi_task_api.Base.Int.{ℤ, pos, negsuc, leb_ℤ, ◌≤ℤ◌, ◌<ℤ◌, ==ℤ_iff}
use fastapi_task_api.Storage.{Task, find_task, max_id, max_or_0, next, generate_task_id}

next_lem : (z : ℤ) → z <ℤ next z
next_lem (pos n) = omega arith
next_lem (negsuc zero) = omega arith
next_lem (negsuc (suc n)) = omega arith

-- Every id of the list is at most `z`.
abbrev pub AreAtMost : {A : Type 0} → ℤ → List (Task A) → Type 0
AreAtMost z [] = Unit
AreAtMost z (task ∷ tasks) = (task.id ≤ℤ z) × AreAtMost z tasks

greater_lem : (a b : ℤ) → let g = if leb_ℤ a b then b else a in (a ≤ℤ g) × (b ≤ℤ g)
greater_lem a b = ground arith

trans_ℤ : (a b c : ℤ) → a ≤ℤ b → b ≤ℤ c → a ≤ℤ c
trans_ℤ a b c h k = omega arith

module _ {A : Type 0} where
  max_lem :
      (z : ℤ) (tasks : List (Task A)) → (z ≤ℤ max_id z tasks) × AreAtMost (max_id z tasks) tasks
  unfolding max_id
  max_lem z [] = (omega arith, tt)
  max_lem z (task ∷ tasks) =
      let g = if leb_ℤ task.id z then z else task.id in
      let (low, high) = greater_lem task.id z in
      let (above, rest) = max_lem g tasks in
      (
        trans_ℤ z g (max_id g tasks) high above,
        (trans_ℤ task.id g (max_id g tasks) low above, rest),
      )

  absent_lem :
      (z i : ℤ) (tasks : List (Task A)) → AreAtMost z tasks → z <ℤ i → find_task i tasks ≡ none
  unfolding find_task
  absent_lem z i [] h above = refl
  absent_lem z i (task ∷ tasks) h above =
      ground (arith, ==ℤ_iff task.id i, absent_lem z i tasks h.1 above, h.0)

  found_lem :
      (z i n : ℤ) (task : Task A) (tasks : List (Task A))
      → AreAtMost z tasks
      → z <ℤ n
      → find_task i tasks ≡ some task
      → i <ℤ n
  unfolding find_task
  found_lem z i n task [] h above found = ground (arith, found)
  found_lem z i n task (t ∷ tasks) h above found =
      ground (arith, ==ℤ_iff t.id i, found_lem z i n task tasks h.1 above, h.0, found)

  max_or_0_lem : (tasks : List (Task A)) → AreAtMost (max_or_0 tasks) tasks
  max_or_0_lem [] = tt
  max_or_0_lem (task ∷ tasks) = max_lem task.id tasks

  -- No task has the id that is generated for the next one, and every id that is there is below it.
  pub generated_fresh :
      (tasks : List (Task A))
      → (find_task (generate_task_id tasks) tasks ≡ none)
        × ((i : ℤ) (task : Task A) → find_task i tasks ≡ some task → i <ℤ generate_task_id tasks)
  unfolding generate_task_id
  generated_fresh tasks =
      let z = max_or_0 tasks in
      (
        absent_lem z (next z) tasks (max_or_0_lem tasks) (next_lem z),
        λ i task found. found_lem z i (next z) task tasks (max_or_0_lem tasks) (next_lem z) found,
      )
