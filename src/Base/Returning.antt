-- ===== src/Base/Returning.antt =====
-- Calls that return: what follows a step that does, and a `finally` whose cleanup does.
use mathlib.Core.Path.{◌≡◌, refl}
use native.Mathlib.Omega.{arith}
use fastapi_task_api.Base.Raising.{Result, ok, err, Exec, continue, ◌>>=◌, ◌>>◌, conclude, finally}

module _ {S A B : Type 0} where
  continue_ok : (f : A → Exec S B) (p : Result A × S) (a : A) → p.0 ≡ ok a → continue f p ≡ f a p.1
  continue_ok f (ok b, s) a h = ground arith
  continue_ok f (err e, s) a h = cc

  pub bind_ok :
      (m : Exec S A) (f : A → Exec S B) (a : A) (s : S) → (m s).0 ≡ ok a → (m >>= f) s ≡ f a (m s).1
  bind_ok m f a s h = continue_ok f (m s) a h

  pub then_ok :
      (m : Exec S A) (k : Exec S B) (a : A) (s : S) → (m s).0 ≡ ok a → (m >> k) s ≡ k (m s).1
  then_ok m k a s h = continue_ok (λ _. k) (m s) a h

  pub conclude_ok : (r : Result B) (p : Result A × S) (a : A) → p.0 ≡ ok a → conclude r p ≡ (r, p.1)
  conclude_ok r (ok b, s) a h = refl
  conclude_ok r (err e, s) a h = cc

  pub conclude_state : (r : Result B) (p : Result A × S) → (conclude r p).1 ≡ p.1
  conclude_state r (ok b, s) = refl
  conclude_state r (err e, s) = refl

  pub finally_ok :
      (m : Exec S B) (cleanup : Exec S A) (a : A) (s : S)
      → (cleanup (m s).1).0 ≡ ok a
      → finally m cleanup s ≡ ((m s).0, (cleanup (m s).1).1)
  unfolding finally
  finally_ok m cleanup a s h = conclude_ok (m s).0 (cleanup (m s).1) a h

  pub finally_state :
      (m : Exec S B) (cleanup : Exec S A) (s : S) → (finally m cleanup s).1 ≡ (cleanup (m s).1).1
  unfolding finally
  finally_state m cleanup s = conclude_state (m s).0 (cleanup (m s).1)

  continue_returns :
      (f : A → Exec S B) (p : Result A × S) (b : B)
      → (continue f p).0 ≡ ok b
      → (a : A) × (p.0 ≡ ok a)
  continue_returns f (ok a, s) b h = (a, refl)
  continue_returns f (err e, s) b h = cc

  -- A block that returns has a first step that does.
  pub bind_returns :
      (m : Exec S A) (f : A → Exec S B) (s : S) (b : B)
      → ((m >>= f) s).0 ≡ ok b
      → (a : A) × ((m s).0 ≡ ok a)
  bind_returns m f s b h = continue_returns f (m s) b h
