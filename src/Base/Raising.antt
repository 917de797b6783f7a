-- ===== src/Base/Raising.antt =====
-- Python calls that may raise: the exceptions of the program and of what it calls, results, and
-- methods that change a state. What was written before an exception stays written, so the state
-- comes back beside the exception too.
use Prim.Native.Nat.{ℕ}
use Prim.Native.String.{String}
use mathlib.Core.List.{List}

-- The subclasses of `httpx.HTTPError` that the program tells apart.
pub data HttpError : Type 0 where
  timeout_exception connect_error : HttpError
  http_status_error : ℕ → HttpError
  other_http_error : HttpError

pub data Error : Type 0 where
  value_error runtime_error circuit_breaker_open_error : String → Error
  retry_budget_exceeded_error : Error
  -- the builtin `TimeoutError`, of which `RetryBudgetExceededError` is a subclass
  timeout_error : Error
  -- `pydantic.ValidationError`
  validation_error : Error
  http_error : HttpError → Error
  redis_error database_error : Error
  -- `jwt.exceptions.InvalidTokenError`, and `InvalidCredentialsError` of authentication.py
  invalid_token_error invalid_credentials_error : Error
  -- `fastapi.HTTPException`: status code, detail, headers with their code points
  http_exception : ℕ → String → List (String × List ℕ) → Error
  -- `fastapi.WebSocketException`: code, reason
  websocket_exception : ℕ → String → Error
  -- an exception of any other class, such as `asyncio.CancelledError`
  other_error : Error

pub data Result {ℓ} (A : Type ℓ) : Type ℓ where
  ok : A → Result A
  err : Error → Result A

abbrev pub Exec {ℓ} : Type ℓ → Type ℓ → Type ℓ
Exec S A = S → Result A × S

module _ {ℓ} {S A : Type ℓ} where
  abbrev pub pure : A → Exec S A
  pure a s = (ok a, s)

  abbrev pub raise : Error → Exec S A
  raise e s = (err e, s)

module _ {ℓ} {S A B : Type ℓ} where
  abbrev pub continue : (A → Exec S B) → Result A × S → Result B × S
  continue f (ok a, s) = f a s
  continue f (err e, s) = (err e, s)

  infixl 5 ◌>>=◌ ◌>>◌
  abbrev pub ◌>>=◌ : Exec S A → (A → Exec S B) → Exec S B
  ◌>>=◌ m f s = continue f (m s)

  abbrev pub ◌>>◌ : Exec S A → Exec S B → Exec S B
  m >> k = m >>= λ _. k

module _ {W A B : Type 0} where
  -- `try: x = m` with `except RedisError: return handler`, then `rest` on `x`.
  abbrev pub or_handle : Exec W B → (A → Exec W B) → Result A × W → Result B × W
  or_handle handler rest (ok a, w) = rest a w
  or_handle handler rest (err redis_error, w) = handler w
  or_handle handler rest (err e, w) = (err e, w)

  unfoldable pub try_redis : Exec W A → Exec W B → (A → Exec W B) → Exec W B
  try_redis m handler rest w = or_handle handler rest (m w)

  -- `try: m` with `finally: cleanup`
  abbrev pub conclude : Result B → Result A × W → Result B × W
  conclude r (ok _, w) = (r, w)
  conclude r (err e, w) = (err e, w)

  unfoldable pub finally : Exec W B → Exec W A → Exec W B
  finally m cleanup w = let (r, w') = m w in conclude r (cleanup w')
