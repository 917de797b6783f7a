-- ===== src/Middlewares.antt =====
-- middlewares.py and exception_handlers.py. `call_next`, which runs the rest of the application, is a
-- parameter, and so are the id drawn for a request and the text of the time that it took. Log lines
-- are left out, and so is a request that is cancelled, which has no response. Starlette stores the
-- names of headers in lower case, and finds a header by its name in lower case.
pub mod RequestIds
use fastapi_task_api.Base.{
  ℕ, Option, none, some, Result, ok, err, Error, Exec, String, List, [], ◌∷◌,
}
use fastapi_task_api.Base.Dict.{Dict, insert}
use fastapi_task_api.Base.Eq.{text_eq}
use fastapi_task_api.Base.Text.{Text, codes, lower}

abbrev pub x_request_id : Text
x_request_id = codes "X-Request-ID"

abbrev pub x_process_time : Text
x_process_time = codes "X-Process-Time"

-- `request.state.request_id`, which the parts of the application share; `none` before it is set.
pub record RequestState : Type 0 where
  pub request_id : Option Text

pub data Content : Type 0 where
  body : Text → Content
  -- a JSON object with one member, `detail`
  detail : String → Content

pub record Response : Type 0 where
  pub status_code : ℕ
  -- by name, in lower case
  pub headers : Dict Text Text
  pub content : Content

-- `response.headers[…] = …`, twice
abbrev pub with_headers : (request_id process_time : Text) → Response → Response
with_headers request_id process_time r = record r {
  headers =
      insert (lower x_process_time) process_time (insert (lower x_request_id) request_id r.headers);
}

-- What follows `call_next`.
abbrev pub observed :
    (request_id process_time : Text)
    → Result Response × RequestState
    → Result Response × RequestState
observed request_id process_time (ok r, s) = (ok (with_headers request_id process_time r), s)
observed request_id process_time (err e, s) = (err e, s)

unfoldable pub add_request_observability :
    (request_id process_time : Text) → Exec RequestState Response → Exec RequestState Response
add_request_observability request_id process_time call_next s =
    observed request_id process_time (call_next (record s { request_id = some request_id }))

abbrev pub or_unavailable : Option Text → Text
or_unavailable none = codes "unavailable"
or_unavailable (some request_id) = request_id

unfoldable pub handle_unexpected_exception : RequestState → Error → Response
handle_unexpected_exception s _error = record {
  status_code = 500;
  headers = (lower x_request_id, or_unavailable s.request_id) ∷ [];
  content = detail "Internal server error";
}

-- The arguments of `CORSMiddleware`.
pub record CorsMiddleware : Type 0 where
  pub allow_origins : List Text
  pub allow_methods : List Text
  pub allow_headers : List Text
  pub expose_headers : List Text

unfoldable pub register_middlewares : List Text → CorsMiddleware
register_middlewares allowed_origins = record {
  allow_origins = allowed_origins;
  allow_methods = codes "GET" ∷ codes "POST" ∷ codes "PATCH" ∷ codes "DELETE" ∷ [];
  allow_headers = codes "Authorization" ∷ codes "Content-Type" ∷ [];
  expose_headers = x_process_time ∷ x_request_id ∷ [];
}

-- `register_exception_handlers`: the framework answers an exception that nothing else has handled
-- with the response of the handler.
abbrev pub or_handled : Result Response × RequestState → Response
or_handled (ok r, s) = r
or_handled (err e, s) = handle_unexpected_exception s e

unfoldable pub answer_request :
    (request_id process_time : Text) → Exec RequestState Response → Response
answer_request request_id process_time call_next =
    or_handled
      (add_request_observability request_id process_time call_next (record { request_id = none }))
