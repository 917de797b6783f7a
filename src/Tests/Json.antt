-- ===== src/Tests/Json.antt =====
-- A text form of task responses that reads back, in place of Pydantic's: each field by its length or
-- its tag.
use fastapi_task_api.Base.{
  take-append, drop-append, ℕ, zero, suc, ◌≡◌, refl, Bool, true, false, Option, none, some, [], ◌∷◌,
  ◌++◌, length, take, drop,
}
use fastapi_task_api.Base.Int.{ℤ, pos, negsuc}
use fastapi_task_api.Base.Text.{Text}
use fastapi_task_api.Base.Eq.{◌=?◌, text_eq}
use fastapi_task_api.Models.{TaskResponse}
use fastapi_task_api.TaskCache.{Json, task_not_found_cache_marker}
use fastapi_task_api.TaskCache.Writes.{JsonLaws}

abbrev put_text : Text → Text → Text
put_text t rest = length t ∷ (t ++ rest)

abbrev put_option_text : Option Text → Text → Text
put_option_text none rest = 0 ∷ rest
put_option_text (some t) rest = 1 ∷ put_text t rest

abbrev put_int : ℤ → Text → Text
put_int (pos n) rest = 0 ∷ n ∷ rest
put_int (negsuc n) rest = 1 ∷ n ∷ rest

abbrev put_option : Option ℕ → Text → Text
put_option none rest = 0 ∷ rest
put_option (some n) rest = 1 ∷ n ∷ rest

abbrev put_bool : Bool → Text → Text
put_bool true rest = 1 ∷ rest
put_bool false rest = 0 ∷ rest

unfoldable pub put : TaskResponse → Text
put t =
    123
    ∷ put_text t.title (
        put_option_text t.description
          (put_int t.priority (put_option t.due_date (put_int t.id (put_bool t.completed [])))))

infixl 5 ◌>>=◌
abbrev ◌>>=◌ : {A B : Type 0} → Option A → (A → Option B) → Option B
none >>= f = none
some a >>= f = f a

abbrev get_text : Text → Option (Text × Text)
get_text [] = none
get_text (n ∷ s) = some (take n s, drop n s)

abbrev get_option_text : Text → Option (Option Text × Text)
get_option_text [] = none
get_option_text (zero ∷ s) = some (none, s)
get_option_text (suc n ∷ s) = do (t, rest) ← get_text s; some (some t, rest)

abbrev get_int : Text → Option (ℤ × Text)
get_int (zero ∷ n ∷ s) = some (pos n, s)
get_int (suc _ ∷ n ∷ s) = some (negsuc n, s)
get_int _ = none

abbrev get_option : Text → Option (Option ℕ × Text)
get_option (zero ∷ s) = some (none, s)
get_option (suc _ ∷ n ∷ s) = some (some n, s)
get_option _ = none

abbrev get_bool : Text → Option (Bool × Text)
get_bool (zero ∷ s) = some (false, s)
get_bool (suc _ ∷ s) = some (true, s)
get_bool [] = none

abbrev get_fields : Text → Option TaskResponse
get_fields s = do
  (title, s₁) ← get_text s
  (description, s₂) ← get_option_text s₁
  (priority, s₃) ← get_int s₂
  (due_date, s₄) ← get_option s₃
  (id, s₅) ← get_int s₄
  (completed, s₆) ← get_bool s₅
  some (record {
    title = title;
    description = description;
    priority = priority;
    due_date = due_date;
    id = id;
    completed = completed;
  })

unfoldable pub get : Text → Option TaskResponse
get [] = none
get (c ∷ s) = get_fields s

get_text-put : (t s : Text) → get_text (put_text t s) ≡ some (t, s)
get_text-put t s = rw (take-append t s, drop-append t s)

get_option_text-put :
    (t : Option Text) (s : Text) → get_option_text (put_option_text t s) ≡ some (t, s)
get_option_text-put none s = refl
get_option_text-put (some t) s = rw (take-append t s, drop-append t s)

get_int-put : (n : ℤ) (s : Text) → get_int (put_int n s) ≡ some (n, s)
get_int-put (pos n) s = refl
get_int-put (negsuc n) s = refl

get_option-put : (n : Option ℕ) (s : Text) → get_option (put_option n s) ≡ some (n, s)
get_option-put none s = refl
get_option-put (some n) s = refl

get_bool-put : (b : Bool) (s : Text) → get_bool (put_bool b s) ≡ some (b, s)
get_bool-put true s = refl
get_bool-put false s = refl

get-put : (t : TaskResponse) → get (put t) ≡ some t
unfolding get put
get-put t =
    simp (take-append, drop-append, get_option_text-put, get_int-put, get_option-put, get_bool-put)

abbrev pub tagged : Json
tagged = record { dump = put; validate = get }

put-ne-marker : (t : TaskResponse) → (put t =? task_not_found_cache_marker) ≡ false
unfolding put
put-ne-marker t = refl

pub tagged_laws : JsonLaws tagged
tagged_laws = record { validate-dump = get-put; dump-ne-marker = put-ne-marker }
