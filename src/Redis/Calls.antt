-- ===== src/Redis/Calls.antt =====
-- What holds after a call of the client, from what holds of the command on the server.
use fastapi_task_api.Base.{Result, ok, err, redis_error, Exec, continue, ◌>>=◌}
use fastapi_task_api.Redis.{Redis, Fault, delivered, request_lost, reply_lost, transmit, call}

-- The call returned a value with `Q`, or raised `RedisError`.
abbrev pub Returns : {A : Type 0} → (A → Type 0) → Result A → Type 0
Returns Q (ok a) = Q a
Returns Q (err redis_error) = Unit
Returns Q (err _) = ⊥

module _ (redis : Redis) (P : redis.State → Type 0) {A : Type 0} (Q : A → Type 0)
    (command : redis.State → A × redis.State) where
  open redis use {State}

  transmit_rule :
      (f : Fault) (s : State)
      → P s
      → P (command s).1
      → Q (command s).0
      → P (transmit redis f command s).1 × Returns Q (transmit redis f command s).0
  transmit_rule delivered s p p' q = (p', q)
  transmit_rule request_lost s p p' q = (p, tt)
  transmit_rule reply_lost s p p' q = (p', tt)

  pub call_rule :
      (s : State)
      → P (redis.arrive s)
      → P (command (redis.arrive s)).1
      → Q (command (redis.arrive s)).0
      → P (call redis command s).1 × Returns Q (call redis command s).0
  unfolding call
  call_rule s p p' q = transmit_rule (redis.fault s) (redis.arrive s) p p' q

-- The rest of a block runs from what the first step returned and left.
module _ {S A B : Type 0} (P : S → Type 0) (Q : A → Type 0) (R : B → Type 0) (f : A → Exec S B)
    (rest : (a : A) (t : S) → P t → Q a → P (f a t).1 × Returns R (f a t).0) where
  continue_rule :
      (r : Result A × S) → P r.1 → Returns Q r.0 → P (continue f r).1 × Returns R (continue f r).0
  continue_rule (ok a, t) p q = rest a t p q
  continue_rule (err redis_error, t) p q = (p, tt)
  continue_rule (err _, t) p q = absurd q

  pub bind_rule :
      (m : Exec S A) (s : S)
      → P (m s).1 × Returns Q (m s).0
      → P ((m >>= f) s).1 × Returns R ((m >>= f) s).0
  bind_rule m s done = continue_rule (m s) done.0 done.1
