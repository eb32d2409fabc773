-- ===== src/Api/Errors.antt =====
-- app/api/errors.py: the three exception handlers. What they tell the tracer and the logger is left
-- out.
use ai_backend_foundation.Http.{Edge, Response}
use ai_backend_foundation.Prelude.{
  List, String, [], if◌then◌else◌, is_empty, none, not, some, suc, ℕ, ◌∷◌,
}
use ai_backend_foundation.Shared.Errors.{AppError, Exception}
use ai_backend_foundation.Shared.ProblemDetails.{
  ProblemDetails, from_app_error, media_type, model_dump,
}
use ai_backend_foundation.Shared.Types.{UuidModule}
use ai_backend_foundation.Shared.Values.{texts}

-- `_resolve_request_id`
unfoldable pub resolve_request_id : UuidModule → Edge → String × Edge
resolve_request_id uuid s =
    if not (is_empty s.state_request_id)
    then (s.state_request_id, s)
    else if not (is_empty s.request_id_var)
    then (s.request_id_var, s)
    else (uuid.str (uuid.uuid4 s.asked), record s { asked = suc s.asked })

abbrev pub problem_response : ℕ → String → ProblemDetails → Response
problem_response status request_id problem = record {
  status_code = status;
  headers = ("X-Request-ID", request_id) ∷ [];
  media_type = media_type;
  content = model_dump problem;
}

unfoldable pub app_error_handler : UuidModule → AppError → Edge → Response × Edge
app_error_handler uuid exc s =
    let (request_id, s') = resolve_request_id uuid s in
    (problem_response exc.status request_id (from_app_error exc (some request_id)), s')

unfoldable pub validation_error_handler : UuidModule → List String → Edge → Response × Edge
validation_error_handler uuid errors s =
    let (request_id, s') = resolve_request_id uuid s in
    (
      problem_response 422 request_id (record {
        type = "about:blank";
        title = "Validation error";
        status = 422;
        detail = some "The request body or parameters are invalid.";
        instance' = none;
        code = "validation-error";
        request_id = some request_id;
        extras = ("errors", texts errors) ∷ [];
      }),
      s',
    )

unfoldable pub unhandled_exception_handler : UuidModule → Exception → Edge → Response × Edge
unhandled_exception_handler uuid exc s =
    let (request_id, s') = resolve_request_id uuid s in
    (
      problem_response 500 request_id (record {
        type = "about:blank";
        title = "Internal server error";
        status = 500;
        detail = some "An unexpected error occurred.";
        instance' = none;
        code = "internal-error";
        request_id = some request_id;
        extras = [];
      }),
      s',
    )
