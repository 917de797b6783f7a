-- ===== src/TaskCacheDependencies/Rules.antt =====
-- task_cache_dependencies.py: what holds after a block with `except RedisError` or `finally`, from
-- what holds of its parts.
use fastapi_task_api.Base.{
  or_handle, try_redis, conclude, finally, ◌≡◌, refl, Result, ok, err, redis_error, Exec, continue,
  ◌>>=◌,
}
use fastapi_task_api.Redis.Calls.{Returns}

-- The state keeps `P`, and the result has `R`.
abbrev pub Leaves : {W A : Type 0} → (W → Type 0) → (Result A → Type 0) → Result A × W → Type 0
Leaves P R (r, w) = P w × R r

-- `M` holds when the block has ended, and `P` in the end.
module _ {W A B : Type 0} (M P : W → Type 0) (Q : A → Type 0) (R : Result B → Type 0)
    (handler : Exec W B) (rest : A → Exec W B) (handled : (w : W) → M w → Leaves P R (handler w))
    (goes_on : (a : A) (w : W) → M w → Q a → Leaves P R (rest a w)) where
  or_handle_rule :
      (r : Result A) (w : W) → M w → Returns Q r → Leaves P R (or_handle handler rest (r, w))
  or_handle_rule (ok a) w p q = goes_on a w p q
  or_handle_rule (err redis_error) w p q = handled w p
  or_handle_rule (err _) w p q = absurd q

  pub try_redis_rule :
      (m : Exec W A) (w : W) → Leaves M (Returns Q) (m w) → Leaves P R (try_redis m handler rest w)
  unfolding try_redis
  try_redis_rule m w done = or_handle_rule (m w).0 (m w).1 done.0 done.1

-- Without an `except` clause, `RedisError` leaves the block.
module _ {W A B : Type 0} (P : W → Type 0) (Q : A → Type 0) (R : Result B → Type 0)
    (rest : A → Exec W B) (goes_on : (a : A) (w : W) → P w → Q a → Leaves P R (rest a w)) where
  continue_or_raise :
      (r : Result A) (w : W)
      → P w
      → Returns Q r
      → (r ≡ err redis_error → R (err redis_error))
      → Leaves P R (continue rest (r, w))
  continue_or_raise (ok a) w p q raised = goes_on a w p q
  continue_or_raise (err redis_error) w p q raised = (p, raised refl)
  continue_or_raise (err _) w p q raised = absurd q

  pub unguarded_rule :
      (m : Exec W A) (w : W)
      → Leaves P (Returns Q) (m w)
      → ((m w).0 ≡ err redis_error → R (err redis_error))
      → Leaves P R ((m >>= rest) w)
  unguarded_rule m w done raised = continue_or_raise (m w).0 (m w).1 done.0 done.1 raised

-- What a block returned is known to what follows it.
pub Returns-self :
    {A : Type 0} (Q : A → Type 0) (r : Result A) → Returns Q r → Returns (λ a. Q a × (r ≡ ok a)) r
Returns-self Q (ok a) q = (q, refl)
Returns-self Q (err redis_error) q = tt
Returns-self Q (err _) q = absurd q

-- The cleanup of a `finally` did not raise.
abbrev pub IsDone : {A : Type 0} → Result A → Type 0
IsDone (ok _) = Unit
IsDone (err _) = ⊥

module _ {W A B : Type 0} (P : W → Type 0) (R : Result B → Type 0) (m : Exec W B)
    (cleanup : Exec W A) where
  conclude_rule :
      (r : Result B) (c : Result A) (w : W) → P w → IsDone c → R r → Leaves P R (conclude r (c, w))
  conclude_rule r (ok _) w p d q = (p, q)
  conclude_rule r (err e) w p d q = absurd d

  pub finally_rule :
      (w : W)
      → Leaves P R (m w)
      → ((w : W) → P w → Leaves P IsDone (cleanup w))
      → Leaves P R (finally m cleanup w)
  unfolding finally
  finally_rule w done cleans =
      let w' = (m w).1 in
      let cleaned = cleans w' done.0 in
      conclude_rule (m w).0 (cleanup w').0 (cleanup w').1 cleaned.0 cleaned.1 done.1

-- What follows a block that does not raise.
module _ {W A B : Type 0} (P : W → Type 0) (R : Result B → Type 0) (rest : Exec W B)
    (goes_on : (w : W) → P w → Leaves P R (rest w)) where
  continue_done : (r : Result A) (w : W) → P w → IsDone r → Leaves P R (continue (λ _. rest) (r, w))
  continue_done (ok _) w p d = goes_on w p
  continue_done (err e) w p d = absurd d

  pub then_rule : (m : Exec W A) (w : W) → Leaves P IsDone (m w) → Leaves P R ((m >>= λ _. rest) w)
  then_rule m w done = continue_done (m w).0 (m w).1 done.0 done.1
