-- ===== src/Storage.antt =====
-- storage.py. A task is a `dict` with an integer under "id".
pub mod Ids
use fastapi_task_api.Base.{ℕ, zero, suc, ◌+◌, Option, none, some, List, [], ◌∷◌, if◌then◌else◌}
use fastapi_task_api.Base.Int.{ℤ, pos, negsuc, leb_ℤ, ◌==ℤ◌}

pub record Task (A : Type 0) : Type 0 where
  pub id : ℤ
  -- what stands under the other keys
  pub rest : A

module _ {A : Type 0} where
  unfoldable pub find_task : ℤ → List (Task A) → Option (Task A)
  find_task task_id [] = none
  find_task task_id (task ∷ tasks) =
      if task.id ==ℤ task_id then some task else find_task task_id tasks

  -- `max` of the ids, of which `highest` is the greatest so far
  unfoldable pub max_id : ℤ → List (Task A) → ℤ
  max_id highest [] = highest
  max_id highest (task ∷ tasks) = max_id (if leb_ℤ task.id highest then highest else task.id) tasks

  -- `max(…, default=0)`
  abbrev pub max_or_0 : List (Task A) → ℤ
  max_or_0 [] = pos 0
  max_or_0 (task ∷ tasks) = max_id task.id tasks

-- `+ 1`
abbrev pub next : ℤ → ℤ
next (pos n) = pos (n + 1)
next (negsuc zero) = pos 0
next (negsuc (suc n)) = negsuc n

unfoldable pub generate_task_id : {A : Type 0} → List (Task A) → ℤ
generate_task_id tasks = next (max_or_0 tasks)
