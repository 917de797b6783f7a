-- ===== src/Tests/Locks.antt =====
-- redis_lock.py, websocket_tickets.py on concrete calls.
use fastapi_task_api.Base.{
  ◌≡◌, ◌≢◌, refl, none, some, ok, List, [], ◌∷◌, true, false, if◌then◌else◌, arith,
}
use fastapi_task_api.Base.Int.{pos}
use fastapi_task_api.Base.Text.{Text, codes}
use fastapi_task_api.Base.Eq.{◌=?◌, text_eq}
use fastapi_task_api.Base.Dict.{lookup}
use fastapi_task_api.Redis.{delivered, call}
use fastapi_task_api.Redis.Server.{Memory, empty, quiet, quiet_laws}
use fastapi_task_api.RedisLock.{RedisLock, holds, acquire, release}
use fastapi_task_api.RedisLock.Exclusion.{
  Call, acquiring, releasing, granted, after, grants, lock_exclusive, release_own,
}
use fastapi_task_api.WebsocketTickets.{WebSocketTicketStore, issue, build_key}

abbrev lock : RedisLock
lock = record { ttl_seconds = 10 }

abbrev key : Text
key = codes "lock:task:1:2"

abbrev alice : Text
alice = codes "a"

abbrev bob : Text
bob = codes "b"

abbrev calls : List Call
calls = acquiring bob ∷ releasing bob ∷ acquiring bob ∷ []

alice-granted : granted quiet quiet_laws lock key (acquiring alice) empty ≡ true
unfolding acquire call lookup
alice-granted = refl

bob-ne-alice : bob ≢ alice
bob-ne-alice h = ground arith

lock_exclusive_example :
    grants quiet quiet_laws lock key calls (after quiet quiet_laws lock key (acquiring alice) empty)
    ≡ 0
lock_exclusive_example =
    lock_exclusive quiet quiet_laws lock key alice empty calls (λ s. refl) alice-granted
      (tt, ((bob-ne-alice, (tt, tt))))

abbrev held : Memory
held = record empty { texts = (key, alice) ∷ [] }

release_own_example :
    (holds (quiet_laws.value held key) bob ≡ false
      → ((j : Text)
          → quiet_laws.value (after quiet quiet_laws lock key (releasing bob) held) j
            ≡ quiet_laws.value held j)
        × ((release quiet key bob held).0 ≢ ok true))
    × (quiet_laws.value held key ≡ some bob
        → delivered ≡ delivered
        → ((release quiet key bob held).0 ≡ ok true)
          × ((j : Text)
              → quiet_laws.value (after quiet quiet_laws lock key (releasing bob) held) j
                ≡ (if key =? j then none else quiet_laws.value held j)))
release_own_example = release_own quiet quiet_laws lock key bob held

abbrev store : WebSocketTicketStore
store = record { ttl_seconds = 30 }

abbrev ticket : Text
ticket = codes "t1"

abbrev issued : Memory
issued = (issue quiet store (pos 7) ticket empty).1

issued_lem : (issue quiet store (pos 7) ticket empty).0 ≡ ok ticket
unfolding issue call lookup build_key
issued_lem = refl
