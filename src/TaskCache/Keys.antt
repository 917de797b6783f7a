-- ===== src/TaskCache/Keys.antt =====
-- task_cache.py, task_cache_dependencies.py: the keys of the cache.
use fastapi_task_api.Base.{◌≡◌, arith, ◌++◌}
use fastapi_task_api.Base.Int.{ℤ}
use fastapi_task_api.Base.Text.{Text, codes, str, str-injective, str-HasNoColon, split_colon}
use fastapi_task_api.Base.Eq.{text_eq}
use fastapi_task_api.TaskCache.{build_key}

drop_prefix : (s t : Text) → codes "task:" ++ s ≡ codes "task:" ++ t → s ≡ t
drop_prefix s t h = ground arith

-- Two owners or two tasks never share a key of the cache.
pub build_key-injective : (o i o' i' : ℤ) → build_key o i ≡ build_key o' i' → (o ≡ o') × (i ≡ i')
unfolding build_key
build_key-injective o i o' i' h =
    let (owners, tasks) =
      split_colon (str o) (str o') (str i) (str i') (str-HasNoColon o) (str-HasNoColon o')
        (drop_prefix _ _ h) in
    (str-injective o o' owners, str-injective i i' tasks)
