-- ===== src/Base/Text.antt =====
-- A Python `str` as the list of its code points, which `len` counts; `str(n)` of an integer, and
-- `int(s)`. Of the spellings that `int` accepts only a sign and ASCII digits are read: the program
-- hands it what `str` wrote.
use Prim.Native.Char.{code}
use Prim.Native.Nat.{ℕ, zero, suc, ◌+◌, ◌-◌, ◌*◌, ◌/◌, ◌%◌, ◌<◌}
use Prim.Native.String.{String}
use mathlib.Core.Path.{◌≡◌, refl}
use mathlib.Core.Logic.{◌≢◌, inl, inr}
use mathlib.Core.Bool.{◌&&◌}
use mathlib.Core.Option.{Option, none, some}
use mathlib.Core.List.{List, [], ◌∷◌, ◌++◌}
use native.Mathlib.Omega.{arith}
use fastapi_task_api.Base.Tests.{ltb, leb, ◌==◌, if◌then◌else◌, Bool-cases}
use fastapi_task_api.Base.Lists.{All, All-append}
use fastapi_task_api.Base.Int.{ℤ, pos, negsuc}

abbrev pub Text : Type 0
Text = List ℕ

abbrev pub codes : String → Text
codes String.[] = []
codes (String.◌∷◌ c s) = code c ∷ codes s

-- `t.lower()` of a text in ASCII
abbrev pub lower : Text → Text
lower [] = []
lower (c ∷ t) = (if leb 65 c && leb c 90 then c + 32 else c) ∷ lower t

-- The decimal digits of a number, with fuel above it.
digits : ℕ → ℕ → Text
digits zero n = []
digits (suc f) n =
    let front = digits f (n / 10) in if ltb n 10 then (48 + n) ∷ [] else front ++ (48 + n % 10) ∷ []

str_ℕ : ℕ → Text
unfolding digits
str_ℕ n = digits (suc n) n

-- `str(n)`, and an integer in an f-string
unfoldable pub str : ℤ → Text
unfolding str_ℕ
str (pos n) = str_ℕ n
str (negsuc n) = 45 ∷ str_ℕ (suc n)

read_digits : ℕ → Text → Option ℕ
read_digits acc [] = some acc
read_digits acc (c ∷ s) = if leb 48 c && leb c 57 then read_digits (acc * 10 + (c - 48)) s else none

read_ℕ : Text → Option ℕ
unfolding read_digits
read_ℕ [] = none
read_ℕ (c ∷ s) = read_digits 0 (c ∷ s)

abbrev as_pos : Option ℕ → Option ℤ
as_pos none = none
as_pos (some n) = some (pos n)

abbrev as_neg : Option ℕ → Option ℤ
as_neg none = none
as_neg (some zero) = some (pos 0)
as_neg (some (suc n)) = some (negsuc n)

-- `int(s)` of a text as `str` writes it; `none` is `ValueError`. Python also reads blanks around the
-- digits, underscores between them and a plus, which the program never writes.
unfoldable pub int : Text → Option ℤ
unfolding read_ℕ
int [] = none
int (c ∷ s) = if c == 45 then as_neg (read_ℕ s) else as_pos (read_ℕ (c ∷ s))

abbrev read_rest : Option ℕ → Text → Option ℕ
read_rest none t = none
read_rest (some acc) t = read_digits acc t

read_digits-append :
    (acc : ℕ) (s t : Text) → read_digits acc (s ++ t) ≡ read_rest (read_digits acc s) t
unfolding read_digits
read_digits-append acc [] t = refl
read_digits-append acc (c ∷ s) t = ground (arith, read_digits-append (acc * 10 + (c - 48)) s t)

read_digits-digits : (f n : ℕ) → n < f → read_digits 0 (digits f n) ≡ some n
unfolding digits read_digits
read_digits-digits zero n h = absurd (omega arith)
read_digits-digits (suc f) n h = elim (Bool-cases (ltb n 10)) [
  | inl small ↦ ground arith
  | inr large ↦ ground (
    arith,
    read_digits-digits f (n / 10),
    read_digits-append 0 (digits f (n / 10)) ((48 + n % 10) ∷ []),
  )
]

read_ℕ_of_digits : (s : Text) (n : ℕ) → s ≢ [] → read_digits 0 s ≡ some n → read_ℕ s ≡ some n
unfolding read_ℕ
read_ℕ_of_digits [] n h e = absurd (h refl)
read_ℕ_of_digits (c ∷ s) n h e = e

append-ne-nil : (s : Text) (c : ℕ) → s ++ c ∷ [] ≢ []
append-ne-nil [] c = ground arith
append-ne-nil (d ∷ s) c = ground arith

digits-ne-nil : (f n : ℕ) → digits (suc f) n ≢ []
unfolding digits
digits-ne-nil f n = ground (arith, append-ne-nil (digits f (n / 10)) (48 + n % 10))

read_ℕ-str_ℕ : (n : ℕ) → read_ℕ (str_ℕ n) ≡ some n
unfolding str_ℕ
read_ℕ-str_ℕ n =
    read_ℕ_of_digits (digits (suc n) n) n (digits-ne-nil n n)
      (read_digits-digits (suc n) n (omega arith))

int_of_read : (s : Text) (n : ℕ) → read_ℕ s ≡ some n → int s ≡ some (pos n)
unfolding int read_ℕ read_digits
int_of_read [] n e = cc
int_of_read (c ∷ s) n e = ground arith

int_of_read_neg : (s : Text) (n : ℕ) → read_ℕ s ≡ some (suc n) → int (45 ∷ s) ≡ some (negsuc n)
unfolding int
int_of_read_neg s n e = rw e

-- `int(str(z))` is `z`.
pub int-str : (z : ℤ) → int (str z) ≡ some z
unfolding str
int-str (pos n) = int_of_read (str_ℕ n) n (read_ℕ-str_ℕ n)
int-str (negsuc n) = int_of_read_neg (str_ℕ (suc n)) n (read_ℕ-str_ℕ (suc n))

pub str-injective : (a b : ℤ) → str a ≡ str b → a ≡ b
str-injective a b h = ground (arith, int-str a, int-str b)

pub str-ne-nil : (z : ℤ) → str z ≢ []
unfolding int
str-ne-nil z h = ground (arith, int-str z)

-- No code point of the text is a colon, which separates the parts of a key.
abbrev pub HasNoColon : Text → Type 0
HasNoColon = All (λ c. c ≢ 58)

digits-HasNoColon : (f n : ℕ) → HasNoColon (digits f n)
unfolding digits
digits-HasNoColon zero n = tt
digits-HasNoColon (suc f) n = elim (Bool-cases (ltb n 10)) [
  | inl small ↦ rw small (ground arith)
  | inr large ↦
      rw large (All-append _ (digits f (n / 10)) _ (digits-HasNoColon f (n / 10)) (ground arith))
]

pub str-HasNoColon : (z : ℤ) → HasNoColon (str z)
unfolding str
str-HasNoColon (pos n) = digits-HasNoColon (suc n) n
str-HasNoColon (negsuc n) = (ground arith, digits-HasNoColon (suc (suc n)) (suc n))

-- A text up to its first colon, and what follows it, are determined.
pub split_colon :
    (a a' b b' : Text)
    → HasNoColon a
    → HasNoColon a'
    → a ++ 58 ∷ b ≡ a' ++ 58 ∷ b'
    → (a ≡ a') × (b ≡ b')
split_colon [] [] b b' h h' e = ground arith
split_colon [] (c ∷ a') b b' h h' e = ground arith
split_colon (c ∷ a) [] b b' h h' e = ground arith
split_colon (c ∷ a) (d ∷ a') b b' h h' e = ground (arith, split_colon a a' b b' h.1 h'.1)
