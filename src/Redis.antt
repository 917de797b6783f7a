-- ===== src/Redis.antt =====
-- The Redis server and the client library, which the program calls and does not implement: their
-- operations are parameters, and what the program relies on is stated as laws. A server command is
-- a function of the state at the moment when it reaches the server.
pub mod Laws
pub mod Calls
pub mod Server
use fastapi_task_api.Base.{ℕ, Bool, Option, Exec, ok, err, redis_error, if◌then◌else◌}
use fastapi_task_api.Base.Int.{ℤ}
use fastapi_task_api.Base.Text.{Text}

-- How the network treats a call. `redis.exceptions.RedisError` is raised in the last two cases; a
-- command that the server refuses counts as lost on the way there.
pub data Fault : Type 0 where
  delivered request_lost reply_lost : Fault

pub record Redis : Type 1 where
  -- the data of the server, the clock and the network
  pub State : Type 0
  pub fault : State → Fault
  -- what happens before the next command of this client reaches the server: time passes, keys
  -- expire, and other clients' commands run
  pub arrive : State → State
  -- GET key
  pub get : Text → State → Option Text × State
  -- SET key value EX seconds
  pub set : Text → Text → ℕ → State → Unit {0} × State
  -- SET key value NX EX seconds: whether the key was set
  pub set_nx : Text → Text → ℕ → State → Bool × State
  -- DEL key: the number of keys deleted
  pub delete : Text → State → ℕ × State
  -- GETDEL key
  pub getdel : Text → State → Option Text × State
  -- INCR key
  pub incr : Text → State → ℕ × State
  -- EXPIRE key seconds
  pub expire : Text → ℕ → State → Unit {0} × State
  -- TTL key: -2 if there is no such key, -1 if it does not expire
  pub ttl : Text → State → ℤ × State

module _ (redis : Redis) where
  open redis use {State, fault, arrive}

  abbrev pub transmit : {A : Type 0} → Fault → (State → A × State) → Exec State A
  transmit delivered command s = let (a, s') = command s in (ok a, s')
  transmit request_lost command s = (err redis_error, s)
  transmit reply_lost command s = (err redis_error, (command s).1)

  -- An awaited call of the client: `await redis_client.…(…)`, or `eval` of a script, which the
  -- server runs with no other command in between.
  unfoldable pub call : {A : Type 0} → (State → A × State) → Exec State A
  call command s = transmit (fault s) command (arrive s)
