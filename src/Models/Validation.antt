-- ===== src/Models/Validation.antt =====
-- models.py: validated requests keep the rows valid, so that responses can be built from them.
use fastapi_task_api.Base.{◌≡◌, refl, Bool, true, Option, none, some, arith}
use fastapi_task_api.Base.Text.{Text}
use fastapi_task_api.Models.{
  TaskRecord, TaskUpdate, TaskUpdateBody, is_task_base, validate_response, validate_update,
  apply_update, response_of, is_title, Sent, unset, null, given, set_or, require_value, allow_null,
  any_value, ◌>>=◌, is_description_text, is_description, is_priority,
}

-- The row meets the constraints of `TaskBase`.
abbrev pub IsValidRow : TaskRecord → Type 0
IsValidRow r = is_task_base r.title r.description r.priority ≡ true

pub validate_response_row :
    (r : TaskRecord) → IsValidRow r → validate_response r ≡ some (response_of r)
unfolding validate_response
validate_response_row r h = rw h

bind_some :
    {A B : Type 0} (m : Option A) (f : A → Option B) {b : B}
    → (m >>= f) ≡ some b
    → (a : A) × (m ≡ some a) × (f a ≡ some b)
bind_some none f h = cc
bind_some (some a) f h = (a, refl, h)

module _ {A : Type 0} (accepts : A → Bool) where
  require_accepts :
      (b : Sent A) (o : Option A) (old : A)
      → require_value accepts b ≡ some o
      → accepts old ≡ true
      → accepts (set_or o old) ≡ true
  require_accepts unset o old h v = ground arith
  require_accepts null o old h v = cc
  require_accepts (given a) o old h v = ground arith

allow_accepts :
    (b : Sent Text) (o : Option (Option Text)) (old : Option Text)
    → allow_null is_description_text b ≡ some o
    → is_description old ≡ true
    → is_description (set_or o old) ≡ true
unfolding is_description
allow_accepts unset o old h v = ground arith
allow_accepts null o old h v = ground arith
allow_accepts (given a) o old h v = ground arith

-- A validated PATCH body, applied to a valid row, leaves a valid row, of the same id and owner.
pub update-IsValidRow :
    (body : TaskUpdateBody) (u : TaskUpdate) (r : TaskRecord)
    → validate_update body ≡ some u
    → IsValidRow r
    → IsValidRow (apply_update u r)
      × ((apply_update u r).id ≡ r.id)
      × ((apply_update u r).owner_id ≡ r.owner_id)
unfolding validate_update apply_update is_task_base
update-IsValidRow body u r h v =
    let (title, et, h₁) = bind_some (require_value is_title body.title) _ h in
    let (description, ed, h₂) = bind_some (allow_null is_description_text body.description) _ h₁ in
    let (priority, ep, h₃) = bind_some (require_value is_priority body.priority) _ h₂ in
    let (completed, ec, h₄) = bind_some (require_value any_value body.completed) _ h₃ in
    let (due_date, eu, h₅) = bind_some (allow_null any_value body.due_date) _ h₄ in
    (
      ground (
        arith,
        h₅,
        require_accepts is_title body.title title r.title et,
        allow_accepts body.description description r.description ed,
        require_accepts is_priority body.priority priority r.priority ep,
      ),
      refl,
      refl,
    )
