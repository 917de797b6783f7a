-- ===== src/Middlewares/RequestIds.antt =====
-- middlewares.py, exception_handlers.py: the id of a request on every response.
use fastapi_task_api.Base.{
  ◌≡◌, ap, ◌∙◌, refl, Bool, true, false, some, Result, ok, err, Exec, List, [], ◌∷◌, if◌then◌else◌,
  ◌||◌,
}
use fastapi_task_api.Base.Dict.{lookup, insert, lookup-insert}
use fastapi_task_api.Base.Eq.{◌=?◌, text_eq}
use fastapi_task_api.Base.Text.{Text, lower}
use fastapi_task_api.Middlewares.{
  RequestState, Response, detail, x_request_id, x_process_time, observed, add_request_observability,
  or_unavailable, handle_unexpected_exception, register_middlewares, or_handled, answer_request,
}

abbrev pub contains : Text → List Text → Bool
contains t [] = false
contains t (x ∷ xs) = (x =? t) || contains t xs

-- What the client gets, by what the application came to.
abbrev pub IsAnswered : (request_id process_time : Text) → Result Response → Response → Type 0
IsAnswered request_id process_time (ok inner) r =
    (r.status_code ≡ inner.status_code)
    × (r.content ≡ inner.content)
    × ((name : Text)
        → lookup (lower name) r.headers ≡ (
            if lower x_process_time =? lower name
            then some process_time
            else if lower x_request_id =? lower name
            then some request_id
            else lookup (lower name) inner.headers))
IsAnswered request_id process_time (err e) r =
    (r.status_code ≡ 500) × (r.content ≡ detail "Internal server error")

answered_lem :
    (request_id process_time : Text) (r : Result Response × RequestState)
    → r.1.request_id ≡ some request_id
    → let response = or_handled (observed request_id process_time r) in
      (lookup (lower x_request_id) response.headers ≡ some request_id)
      × IsAnswered request_id process_time r.0 response
unfolding handle_unexpected_exception lookup
answered_lem request_id process_time (ok inner, s) kept =
    let named = λ (name : Text).
      lookup-insert (lower x_process_time) (lower name) process_time
        (insert (lower x_request_id) request_id inner.headers)
      ∙ ap (λ o. if lower x_process_time =? lower name then some process_time else o)
          (lookup-insert (lower x_request_id) (lower name) request_id inner.headers) in
    (named x_request_id, (refl, refl, named))
answered_lem request_id process_time (err e, s) kept =
    (ap (λ o. some (or_unavailable o)) kept, (refl, refl))

-- If the rest of the application leaves the id of the request alone, every response carries it in
-- X-Request-ID, also the 500 that answers an unexpected exception. A response of the application
-- keeps its status, its content and its other headers, and gets X-Process-Time; the case of a
-- header's name does not matter. The registered CORS middleware is told to expose both headers.
pub request_id_everywhere :
    (request_id process_time : Text) (call_next : Exec RequestState Response) (origins : List Text)
    → let r = call_next (record { request_id = some request_id }) in
      let response = answer_request request_id process_time call_next in
      r.1.request_id ≡ some request_id
      → (lookup (lower x_request_id) response.headers ≡ some request_id)
        × IsAnswered request_id process_time r.0 response
        × (contains x_request_id (register_middlewares origins).expose_headers ≡ true)
        × (contains x_process_time (register_middlewares origins).expose_headers ≡ true)
unfolding answer_request add_request_observability register_middlewares
request_id_everywhere request_id process_time call_next origins kept =
    let (carried, answered) =
      answered_lem request_id process_time (call_next (record { request_id = some request_id }))
        kept in
    (carried, answered, refl, refl)
