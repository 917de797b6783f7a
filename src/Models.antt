-- ===== src/Models.antt =====
-- models.py and database_models.py: the rows of the database and the bodies of requests and
-- responses, with the constraints that their fields declare. A `date` is its ordinal; texts are
-- lists of code points.
pub mod Validation
use fastapi_task_api.Base.{
  ℕ, Bool, true, false, ◌&&◌, Option, none, some, leb, if◌then◌else◌, length,
}
use fastapi_task_api.Base.Int.{ℤ, pos, leb_ℤ}
use fastapi_task_api.Base.Text.{Text}

pub record TaskRecord : Type 0 where
  pub id : ℤ
  pub title : Text
  pub description : Option Text
  pub priority : ℤ
  pub completed : Bool
  pub owner_id : ℤ
  pub due_date : Option ℕ

pub record UserRecord : Type 0 where
  pub id : ℤ
  pub username : Text
  pub hashed_password : Text
  pub is_active : Bool

pub record TaskCreate : Type 0 where
  pub title : Text
  pub description : Option Text
  pub priority : ℤ
  pub due_date : Option ℕ

pub record TaskResponse : Type 0 where
  pub title : Text
  pub description : Option Text
  pub priority : ℤ
  pub due_date : Option ℕ
  pub id : ℤ
  pub completed : Bool

-- A field of a PATCH body: left out, `null`, or a value.
pub data Sent (A : Type 0) : Type 0 where
  unset null : Sent A
  given : A → Sent A

pub record TaskUpdateBody : Type 0 where
  pub title : Sent Text
  pub description : Sent Text
  pub priority : Sent ℤ
  pub completed : Sent Bool
  pub due_date : Sent ℕ

-- The validated `TaskUpdate`, as `model_dump(exclude_unset=True)` gives it: `none` is not set.
pub record TaskUpdate : Type 0 where
  pub title : Option Text
  pub description : Option (Option Text)
  pub priority : Option ℤ
  pub completed : Option Bool
  pub due_date : Option (Option ℕ)

-- `Field(min_length=2, max_length=100)`
unfoldable pub is_title : Text → Bool
is_title title = leb 2 (length title) && leb (length title) 100

-- `Field(max_length=500)`, of a text and of an optional one
unfoldable pub is_description_text : Text → Bool
is_description_text description = leb (length description) 500

unfoldable pub is_description : Option Text → Bool
is_description none = true
is_description (some description) = is_description_text description

-- `Field(ge=1, le=5)`
unfoldable pub is_priority : ℤ → Bool
is_priority priority = leb_ℤ (pos 1) priority && leb_ℤ priority (pos 5)

-- The constraints of `TaskBase`.
unfoldable pub is_task_base : Text → Option Text → ℤ → Bool
is_task_base title description priority =
    is_title title && (is_description description && is_priority priority)

-- `TaskCreate` accepts the values of its fields.
unfoldable pub is_task_create : TaskCreate → Bool
is_task_create c = is_task_base c.title c.description c.priority

abbrev pub response_of : TaskRecord → TaskResponse
response_of r = record {
  title = r.title;
  description = r.description;
  priority = r.priority;
  due_date = r.due_date;
  id = r.id;
  completed = r.completed;
}

-- `TaskResponse.model_validate(task_record)`; `none` is `ValidationError`.
unfoldable pub validate_response : TaskRecord → Option TaskResponse
validate_response r =
    if is_task_base r.title r.description r.priority then some (response_of r) else none

-- A field that `reject_null` guards, and one that may be null; `none` is a rejected value.
abbrev pub require_value : {A : Type 0} → (A → Bool) → Sent A → Option (Option A)
require_value accepts unset = some none
require_value accepts null = none
require_value accepts (given a) = if accepts a then some (some a) else none

abbrev pub allow_null : {A : Type 0} → (A → Bool) → Sent A → Option (Option (Option A))
allow_null accepts unset = some none
allow_null accepts null = some (some none)
allow_null accepts (given a) = if accepts a then some (some (some a)) else none

infixl 5 ◌>>=◌
abbrev pub ◌>>=◌ : {A B : Type 0} → Option A → (A → Option B) → Option B
none >>= f = none
some a >>= f = f a

-- The annotation has no further constraint.
abbrev pub any_value : {A : Type 0} → A → Bool
any_value a = true

-- The validation of a PATCH body by `TaskUpdate`; `none` is a rejected request.
unfoldable pub validate_update : TaskUpdateBody → Option TaskUpdate
validate_update body = do
  title ← require_value is_title body.title
  description ← allow_null is_description_text body.description
  priority ← require_value is_priority body.priority
  completed ← require_value any_value body.completed
  due_date ← allow_null any_value body.due_date
  some (record {
    title = title;
    description = description;
    priority = priority;
    completed = completed;
    due_date = due_date;
  })

-- `setattr` of a field that was set.
abbrev pub set_or {ℓ} : {A : Type ℓ} → Option A → A → A
set_or none old = old
set_or (some new) old = new

-- The loop over `update_data.items()` in `update_task`.
unfoldable pub apply_update : TaskUpdate → TaskRecord → TaskRecord
apply_update u r = record r {
  title = set_or u.title r.title;
  description = set_or u.description r.description;
  priority = set_or u.priority r.priority;
  completed = set_or u.completed r.completed;
  due_date = set_or u.due_date r.due_date;
}
