-- ===== src/Accounts/Credentials.antt =====
-- Password hashes and tokens that meet the laws, for concrete runs.
use fastapi_task_api.Base.{
  ℕ, ap, true, ok, err, other_error, take-append, drop-append, ◌∙◌, ◌≤◌, ◌<◌, ◌≡◌, Bool, false,
  ◌&&◌, Option, none, some, [], ◌∷◌, ◌++◌, length, take, drop, ltb, leb, if◌then◌else◌, arith,
}
use fastapi_task_api.Base.Dict.{=?_refl}
use fastapi_task_api.Base.Text.{Text}
use fastapi_task_api.Base.Eq.{◌=?◌, text_eq, int_eq}
use fastapi_task_api.Accounts.{PasswordHash, Jwt, Claims}
use fastapi_task_api.Accounts.Laws.{HashLaws, TokenLaws, is_hmac}

-- A hash keeps the password behind its salt.
abbrev check_plain : Text → Text → Bool
check_plain p [] = false
check_plain p (salt ∷ q) = p =? q

abbrev pub plain : PasswordHash
plain = record { hash = λ salt p. salt ∷ p; verify = check_plain }

abbrev pub plain_laws : HashLaws plain
plain_laws = record { verify-hash = λ salt p. =?_refl p }

-- A token is its claims, then its key and algorithm.
abbrev check_times : ℕ → ℕ → ℕ → Text → Option (Option Text)
check_times now iat exp sub = if leb iat now && ltb now exp then some (some sub) else none

abbrev check_key : ℕ → Text → Text → Text → Option (Option Text)
check_key now key algorithm (iat ∷ exp ∷ n ∷ rest) =
    if drop n rest =? (key ++ algorithm) then check_times now iat exp (take n rest) else none
check_key now key algorithm _ = none

abbrev pub sign : Claims → Text → Text → Text
sign c key algorithm = c.iat ∷ c.exp ∷ length c.sub ∷ (c.sub ++ (key ++ algorithm))

-- Only HMAC is supported.
abbrev pub clear : Jwt
clear = record {
  encode =
      λ c key algorithm. if is_hmac algorithm then ok (sign c key algorithm) else err other_error;
  decode = λ now token key algorithm. check_key now key algorithm token;
}

pub decode_encode_lem :
    (now : ℕ) (c : Claims) (key algorithm : Text)
    → clear.decode now (sign c key algorithm) key algorithm ≡ check_times now c.iat c.exp c.sub
decode_encode_lem now c key algorithm = simp (
  take-append c.sub (key ++ algorithm),
  drop-append c.sub (key ++ algorithm),
  =?_refl (key ++ algorithm),
)

ok_injective : (a b : Text) → ok a ≡ ok b → b ≡ a
ok_injective a b h = cc

signed_lem :
    (c : Claims) (key algorithm token : Text)
    → is_hmac algorithm ≡ true
    → clear.encode c key algorithm ≡ ok token
    → token ≡ sign c key algorithm
signed_lem c key algorithm token hmac encoded =
    ok_injective (sign c key algorithm) token (rw hmac at encoded)

pub decode_valid :
    (now : ℕ) (c : Claims) (key algorithm token : Text)
    → is_hmac algorithm ≡ true
    → clear.encode c key algorithm ≡ ok token
    → c.iat ≤ now
    → now < c.exp
    → clear.decode now token key algorithm ≡ some (some c.sub)
decode_valid now c key algorithm token hmac encoded issued lives =
    ap (λ t. clear.decode now t key algorithm) (signed_lem c key algorithm token hmac encoded)
    ∙ decode_encode_lem now c key algorithm
    ∙ ground arith

pub decode_late :
    (now : ℕ) (c : Claims) (key algorithm token : Text)
    → is_hmac algorithm ≡ true
    → clear.encode c key algorithm ≡ ok token
    → c.exp ≤ now
    → clear.decode now token key algorithm ≡ none
decode_late now c key algorithm token hmac encoded late =
    ap (λ t. clear.decode now t key algorithm) (signed_lem c key algorithm token hmac encoded)
    ∙ decode_encode_lem now c key algorithm
    ∙ ground arith

abbrev pub clear_laws : TokenLaws clear
clear_laws = record { decode-encode = decode_valid; decode_expired = decode_late }
