-- ===== src/Tests/Tasks.antt =====
-- models.py, task_cache.py, task_cache_dependencies.py on concrete tasks.
use fastapi_task_api.Base.{
  ℕ, ◌≡◌, refl, true, false, Option, none, some, ok, err, redis_error, [], ◌∷◌, List, arith,
}
use fastapi_task_api.Base.Int.{ℤ, pos}
use fastapi_task_api.Base.Text.{Text, codes}
use fastapi_task_api.Base.Eq.{text_eq, int_eq}
use fastapi_task_api.Base.Dict.{lookup}
use fastapi_task_api.Database.Tables.{Tables, tables, tables_laws}
use fastapi_task_api.Models.{
  TaskRecord, TaskUpdateBody, TaskUpdate, TaskResponse, unset, given, null, validate_update,
  response_of, is_task_base, is_title, is_description, is_description_text, is_priority,
}
use fastapi_task_api.Models.Validation.{IsValidRow}
use fastapi_task_api.Redis.Laws.{Laws}
use fastapi_task_api.Redis.{Redis, Fault, delivered, reply_lost, call}
use fastapi_task_api.Redis.Server.{Memory, empty, server, server_laws, fault_of, tick}
use fastapi_task_api.RedisLock.{acquire}
use fastapi_task_api.TaskCache.{miss, build_key, lookup_task}
use fastapi_task_api.TaskCache.Coherence.{set-IsCoherent}
use fastapi_task_api.TaskCacheDependencies.{CacheSettings, TaskWorld, get_cached_owned_task_or_404}
use fastapi_task_api.TaskCacheDependencies.Load
use fastapi_task_api.TaskCacheDependencies.Load.{Assumptions, Holds, IsFaithful}
use fastapi_task_api.TaskCacheDependencies.Rules.{Leaves}
use fastapi_task_api.TaskCacheDependencies.Reads.{SecondLookupFails, cached_read-Faithful}
use fastapi_task_api.TaskCacheDependencies.Unguarded.{second_lookup_unguarded}
use fastapi_task_api.Tests.Json.{tagged, tagged_laws}

-- The task 2 of the user 1.
abbrev pub chores : TaskRecord
chores = record {
  id = pos 2;
  title = codes "chores";
  description = none;
  priority = pos 3;
  completed = false;
  owner_id = pos 1;
  due_date = none;
}

abbrev pub done : TaskUpdateBody
done = record {
  title = unset;
  description = given (codes "all");
  priority = unset;
  completed = given true;
  due_date = null;
}

abbrev pub done_update : TaskUpdate
done_update = record {
  title = none;
  description = some (some (codes "all"));
  priority = none;
  completed = some true;
  due_date = some none;
}

pub done_validated : validate_update done ≡ some done_update
unfolding validate_update is_description_text
done_validated = refl

pub chores-IsValidRow : IsValidRow chores
unfolding is_task_base is_title is_description is_priority
chores-IsValidRow = refl

abbrev pub db : Tables
db = record { rows = (pos 2, chores) ∷ []; down = false }

abbrev pub settings : CacheSettings
settings = record {
  task_cache = record { ttl_seconds = 60; negative_ttl_seconds = 10; ttl_jitter_seconds = 0 };
  cache_lock = record { ttl_seconds = 5 };
  task_cache_lock_wait_attempts = pos 3;
  task_cache_lock_wait_seconds = pos 1;
  jitter_generator = λ low high. low;
}

pub rows_valid_lem : (i : ℤ) (r : TaskRecord) → tables_laws.row db i ≡ some r → IsValidRow r
unfolding lookup is_task_base is_title is_description is_priority
rows_valid_lem i r h = ground (arith, chores-IsValidRow)

-- Every call of the list of faults fails as it says.
abbrev pub flaky : Redis
flaky = server fault_of tick

abbrev pub flaky_laws : Laws flaky
flaky_laws = server_laws fault_of tick

abbrev pub assumptions : Assumptions flaky tables tagged db
assumptions = record {
  redis_laws = flaky_laws;
  database_laws = tables_laws;
  json_laws = tagged_laws;
  rows_valid = rows_valid_lem;
}

abbrev pub expected : ℤ → ℤ → Option TaskResponse
expected = Load.expected flaky tables tagged db assumptions

abbrev pub Known : ℤ → ℤ → Option TaskResponse → Type 0
Known = Load.Known flaky tables tagged db assumptions

abbrev pub Coherent : Memory → Type 0
Coherent = Load.Coherent flaky tables tagged db assumptions Known

empty-IsCoherent : (faults : List Fault) → Coherent (record empty { faults = faults })
unfolding lookup
empty-IsCoherent faults = record { entry = λ o i v h. absurd cc }

pub tick-IsCoherent : (s : Memory) → Coherent s → Coherent (tick s)
tick-IsCoherent s c = record { entry = c.entry }

sleep-IsCoherent : (n : ℕ) (s : Memory) → Coherent s → Coherent s
sleep-IsCoherent n s c = c

-- The task is cached.
abbrev pub cached : Memory
cached = (flaky.set (build_key (pos 1) (pos 2)) (tagged.dump (response_of chores)) 60 empty).1

pub cached-IsCoherent : Coherent cached
unfolding lookup
cached-IsCoherent =
    set-IsCoherent flaky flaky_laws tagged Known (pos 1) (pos 2) (tagged.dump (response_of chores))
      60 empty
      (rw
        (
          tagged_laws.dump-ne-marker (response_of chores),
          tagged_laws.validate-dump (response_of chores),
        )
        refl)
      (empty-IsCoherent [])

abbrev token : Text
token = codes "t"

-- Nothing is cached, and the third call of Redis fails.
abbrev third_fails : TaskWorld flaky tables
third_fails = record {
  redis_state = record empty { faults = delivered ∷ delivered ∷ reply_lost ∷ [] };
  db = db;
}

third_fails-Holds : Holds flaky tables tagged db assumptions Known third_fails
third_fails-Holds = record {
  coherent = empty-IsCoherent (delivered ∷ delivered ∷ reply_lost ∷ []);
  same_db = refl;
}

cached_read-Faithful_example :
    Leaves
      (Holds flaky tables tagged db assumptions Known)
      (IsFaithful flaky tables tagged db assumptions Known
        (SecondLookupFails flaky tagged settings
          (pos 1)
          (pos 2)
          token
          (lookup_task flaky tagged (pos 1) (pos 2) third_fails.redis_state).1)
        (pos 1)
        (pos 2))
      (get_cached_owned_task_or_404 flaky tables tagged settings
        (λ n s. s)
        (pos 1)
        (pos 2)
        token
        third_fails)
cached_read-Faithful_example =
    cached_read-Faithful flaky tables tagged db assumptions settings tick-IsCoherent (λ n s. s)
      sleep-IsCoherent (omega arith) (omega arith) (pos 1) (pos 2) token third_fails
      third_fails-Holds

first_misses : (lookup_task flaky tagged (pos 1) (pos 2) third_fails.redis_state).0 ≡ ok miss
unfolding lookup_task call lookup
first_misses = refl

second_fails :
    SecondLookupFails flaky tagged settings
      (pos 1)
      (pos 2)
      token
      (lookup_task flaky tagged (pos 1) (pos 2) third_fails.redis_state).1
unfolding lookup_task acquire call lookup
second_fails = (token, refl, refl)

second_lookup_unguarded_example :
    (get_cached_owned_task_or_404 flaky tables tagged settings
      (λ n s. s)
      (pos 1)
      (pos 2)
      token
      third_fails).0
    ≡ err redis_error
second_lookup_unguarded_example =
    second_lookup_unguarded flaky tables tagged settings (λ n s. s) (pos 1) (pos 2) token
      third_fails miss first_misses refl second_fails
