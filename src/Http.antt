-- ===== src/Http.antt =====
-- The requests and responses that the middleware of the program passes on. `Edge` is the state that
-- they share while one request is served: the context variable `request_id_var`, the
-- `request.state.request_id`, the access log, and the number of answers of the surroundings so far.
pub mod Headers
use ai_backend_foundation.Action.{Action, Outcome, ok, raised}
use ai_backend_foundation.Prelude.{
  List, Option, String, [], if◌then◌else◌, none, some, str_eq, ℕ, ◌∷◌,
}
use ai_backend_foundation.Shared.Values.{Value}

abbrev pub Headers : Type 0
Headers = List (String × String)

abbrev pub Body : Type 0
Body = List (String × Value)

pub record Response : Type 0 where
  pub status_code : ℕ
  pub headers : Headers
  pub media_type : String
  pub content : Body

pub record AccessLine : Type 0 where
  pub method : String
  pub path : String
  pub status : ℕ
  pub duration_ms : ℕ
  pub request_id : String

pub record Edge : Type 0 where
  pub request_id_var : String
  pub state_request_id : String
  pub asked : ℕ
  pub access_log : List AccessLine

abbrev pub Endpoint : Type 0
Endpoint = Action Edge Response

-- `response.headers[name] = value`
abbrev pub put_header : String → String → Headers → Headers
put_header name value [] = (name, value) ∷ []
put_header name value ((k, v) ∷ headers) =
    if str_eq k name then (k, value) ∷ headers else (k, v) ∷ put_header name value headers

abbrev pub header : String → Headers → Option String
header name [] = none
header name ((k, v) ∷ headers) = if str_eq k name then some v else header name headers

abbrev pub set_header : String → String → Response → Response
set_header name value response = record response {
  headers = put_header name value response.headers;
}

-- A response that an inner application returned is changed, an exception passes.
abbrev pub on_response : (Response → Response) → Outcome Response → Outcome Response
on_response f (ok response) = ok (f response)
on_response f (raised e) = raised e
