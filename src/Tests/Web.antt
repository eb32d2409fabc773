-- ===== src/Tests/Web.antt =====
-- Tests of app/api, app/main, app/observability and app/shared.
use ai_backend_foundation.Action.{Outcome, modify, ok, pure, raise, raised, try_finally, ◌>>=◌}
use ai_backend_foundation.Api.Errors.{
  app_error_handler, unhandled_exception_handler, validation_error_handler,
}
use ai_backend_foundation.Api.Pagination.{get_cursor_params, get_cursor_params_iff}
use ai_backend_foundation.Api.SecurityHeaders.{secure, security_headers}
use ai_backend_foundation.Auth.Api.{handle}
use ai_backend_foundation.Http.{Edge, Endpoint, Response, header, set_header}
use ai_backend_foundation.Main.{Request, Starlette, has_own_handler, middleware, serve}
use ai_backend_foundation.Main.Responses.{
  IsSecured, at_routes, context_restored, inner, internal_error, passed_response,
  unhandled_exception, whole,
}
use ai_backend_foundation.Observability.AccessLog.{access_log}
use ai_backend_foundation.Observability.Correlation.{
  choose_request_id, correlation, reset_request_id_var, set_request_id_var, with_request_id,
}
use ai_backend_foundation.Observability.Health.{Probe, healthy, healthz, readyz}
use ai_backend_foundation.Observability.Health.Endpoints.{IsWell, health_iff}
use ai_backend_foundation.Prelude.{
  All, Bool, Option, String, [], ap, false, none, pos, refl, some, true, ℕ, ℤ, ◌↔◌, ◌∙◌, ◌∷◌, ◌≡◌,
  ◌≢◌, ◌≤◌, ◌⊎◌,
}
use ai_backend_foundation.Shared.Errors.{
  Exception, app, attribute_error, conflict_error, data_error, file_not_found_error,
  integrity_error, multiple_results_found, not_found_error, request_validation_error, runtime_error,
  unexpected_error, value_error,
}
use ai_backend_foundation.Shared.ProblemDetails.{from_app_error, model_dump}
use ai_backend_foundation.Shared.ProblemDetails.Fields.{document_fields}
use ai_backend_foundation.Shared.Types.{UuidModule}
use ai_backend_foundation.Shared.Values.{get_claim, number, text}
use ai_backend_foundation.Tests.Setup.{uuids}

abbrev answer_with : (Outcome Response × Edge → Outcome Response × Edge) → Endpoint → Endpoint
answer_with handle m s = handle (m s)

abbrev handle_known : UuidModule → Outcome Response × Edge → Outcome Response × Edge
handle_known uuid (ok r, s) = (ok r, s)
handle_known uuid (raised (app e), s) =
    (ok (app_error_handler uuid e s).0, (app_error_handler uuid e s).1)
handle_known uuid (raised (request_validation_error errors), s) =
    (ok (validation_error_handler uuid errors s).0, (validation_error_handler uuid errors s).1)
handle_known uuid (raised e, s) = (raised e, s)

abbrev handle_rest : UuidModule → Outcome Response × Edge → Outcome Response × Edge
handle_rest uuid (ok r, s) = (ok r, s)
handle_rest uuid (raised e, s) =
    (ok (unhandled_exception_handler uuid e s).0, (unhandled_exception_handler uuid e s).1)

handle_known-rest :
    (uuid : UuidModule) (s : Edge) (e : Exception)
    → has_own_handler e ≡ false
    → handle_known uuid (raised e, s) ≡ (raised e, s)
handle_known-rest uuid s (app e) h = cc
handle_known-rest uuid s (request_validation_error errors) h = cc
handle_known-rest uuid s (value_error m) h = refl
handle_known-rest uuid s attribute_error h = refl
handle_known-rest uuid s (runtime_error m) h = refl
handle_known-rest uuid s integrity_error h = refl
handle_known-rest uuid s data_error h = refl
handle_known-rest uuid s multiple_results_found h = refl
handle_known-rest uuid s (file_not_found_error m) h = refl
handle_known-rest uuid s (unexpected_error m) h = refl

abbrev starlette : (uuid : UuidModule) → Starlette uuid
starlette uuid = record {
  cors = λ m. m;
  cors_raises = λ m s s' e h. h;
  exception_layer = answer_with (handle_known uuid);
  app_error = λ m s s' e h. ap (handle_known uuid) h;
  validation = λ m s s' errors h. ap (handle_known uuid) h;
  unexpected = λ m s s' e own h. ap (handle_known uuid) h ∙ handle_known-rest uuid s' e own;
  server_error_layer = answer_with (handle_rest uuid);
  server_error = λ m s s' e h. ap (handle_rest uuid) h;
  server_passes = λ m s s' r h. ap (handle_rest uuid) h;
}

abbrev start : Edge
start = record { request_id_var = ""; state_request_id = ""; asked = 0; access_log = [] }

abbrev me : Request
me = record { method = "GET"; path = "/users/me"; x_request_id = some "uu" }

abbrev not_found_route : Endpoint
not_found_route = raise (app (not_found_error none []))

abbrev broken_route : Endpoint
broken_route = raise (runtime_error "secret")

context_restored_example :
    ((whole uuids (starlette uuids) (λ n. n) true me broken_route start).1.request_id_var ≡ "")
    × ((whole uuids (starlette uuids) (λ n. n) true me broken_route start).1.state_request_id
        ≡ (inner uuids
            (starlette uuids)
            (λ n. n)
            true
            me
            broken_route
            start
            (at_routes uuids
              (starlette uuids)
              (λ n. n)
              true
              me
              broken_route
              start)).1.state_request_id)
context_restored_example =
    context_restored uuids (starlette uuids) (λ n. n) true me broken_route start

document_fields_example :
    (let body = model_dump (
        from_app_error
          (conflict_error none (("code", text "mine") ∷ ("hint", text "again") ∷ []))
          (some "id")) in
      (get_claim "type" body ≡ some (text "about:blank"))
      × (get_claim "title" body ≡ some (text "Conflict"))
      × (get_claim "status" body ≡ some (number 409))
      × (get_claim "code" body ≡ some (text "conflict"))
      × (get_claim "detail" body ≡ none)
      × (get_claim "instance" body ≡ none)
      × (get_claim "request_id" body ≡ some (text "id"))
      × (get_claim "hint" body ≡ some (text "again")))
document_fields_example =
    document_fields (conflict_error none (("code", text "mine") ∷ ("hint", text "again") ∷ []))
      (some "id") "hint" refl

abbrev slow_probe : Probe
slow_probe = record {
  name = "redis";
  took_ms = 6000;
  check = ok (record { name = "redis"; status = healthy; latency_ms = none });
}

health_iff_example :
    (((healthz (record { probes = slow_probe ∷ [] })).status_code ≡ 200)
      ↔ All IsWell (slow_probe ∷ []))
    × (((readyz (record { probes = slow_probe ∷ [] }) true).status_code ≡ 200)
        ↔ ((◌≡◌ {A = Bool} true true) × All IsWell (slow_probe ∷ [])))
health_iff_example = health_iff (record { probes = slow_probe ∷ [] }) true

get_cursor_params_iff_example :
    (get_cursor_params (some "c") (some (pos 101)) ≡ ok (record { cursor = some "c"; limit = 101 }))
    ↔ ((◌≡◌ {A = Option String} (some "c") (some "c"))
        × (1 ≤ 101)
        × (101 ≤ 100)
        × (◌≢◌ {A = Option String} (some "c") (some ""))
        × ((◌≡◌ {A = Option ℤ} (some (pos 101)) (some (pos 101)))
            ⊎ ((◌≡◌ {A = Option ℤ} (some (pos 101)) none) × (◌≡◌ {A = ℕ} 101 20))))
get_cursor_params_iff_example =
    get_cursor_params_iff (some "c") (some (pos 101)) (record { cursor = some "c"; limit = 101 })

abbrev after_break : Edge
after_break = record { request_id_var = "uu"; state_request_id = "uu"; asked = 1; access_log = [] }

unhandled_exception_example :
    ((serve uuids (starlette uuids) (λ n. n) true me broken_route start).0
      ≡ ok (internal_error uuids (starlette uuids) (λ n. n) true me broken_route start))
    × (header "X-Frame-Options" (("X-Request-ID", "uu") ∷ []) ≡ none)
    × ((serve uuids (starlette uuids) (λ n. n) true me broken_route start).1.access_log ≡ [])
unfolding choose_request_id raise
unhandled_exception_example =
    unhandled_exception uuids (starlette uuids) (λ n. n) true me broken_route start
      (runtime_error "secret") after_break refl refl refl refl

abbrev answered : Response
answered = record { status_code = 200; headers = []; media_type = "application/json"; content = [] }

abbrev secured : Response
secured = set_header "X-Request-ID" "uu" (secure answered)

passed_response_example :
    (header "X-Request-ID" secured.headers ≡ some (choose_request_id uuids (some "uu") start).0)
    × IsSecured secured
unfolding middleware correlation with_request_id set_request_id_var reset_request_id_var try_finally
    modify ◌>>=◌ choose_request_id access_log security_headers pure
passed_response_example =
    passed_response uuids (starlette uuids) (λ n. n) true me (pure answered) start secured refl refl
