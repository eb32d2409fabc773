-- ===== src/Main/Responses.antt =====
-- What every answer of the application has, whichever way the route ends.
use mathlib.Core.Path.{subst}
use ai_backend_foundation.Action.{Outcome, ok, raised}
use ai_backend_foundation.Api.Errors.{resolve_request_id, unhandled_exception_handler}
use ai_backend_foundation.Api.SecurityHeaders.{secure, security_headers}
use ai_backend_foundation.Database.Steps.{raises}
use ai_backend_foundation.Http.{Edge, Endpoint, Response, header, on_response, set_header}
use ai_backend_foundation.Http.Headers.{header-put_header, header-put_header_self}
use ai_backend_foundation.Main.{Request, Starlette, has_own_handler, middleware, serve}
use ai_backend_foundation.Observability.AccessLog.{access_log, log_response}
use ai_backend_foundation.Observability.Correlation.{
  choose_request_id, correlation, with_request_id_lem,
}
use ai_backend_foundation.Prelude.{
  Bool, Option, String, [], ap, arith, false, if◌then◌else◌, is_empty, none, refl, some, suc, sym,
  true, ℕ, ◌∙◌, ◌∷◌, ◌≡◌,
}
use ai_backend_foundation.Shared.Errors.{Exception}
use ai_backend_foundation.Shared.ProblemDetails.{model_dump}
use ai_backend_foundation.Shared.Types.{UuidModule}
use ai_backend_foundation.Shared.Values.{number, text}

choose-context :
    (uuid : UuidModule) (inbound : Option String) (s : Edge)
    → ((choose_request_id uuid inbound s).1.request_id_var ≡ s.request_id_var)
      × ((choose_request_id uuid inbound s).1.access_log ≡ s.access_log)
unfolding choose_request_id
choose-context uuid none s = (refl, refl)
choose-context uuid (some inbound) s = ground arith

on_response-ok :
    (f : Response → Response) (o : Outcome Response) {r : Response}
    → on_response f o ≡ ok r
    → (r' : Response) × (o ≡ ok r') × (r ≡ f r')
on_response-ok f (ok r') h = (r', refl, cc)
on_response-ok f (raised e) h = cc

log_response-outcome :
    (method path : String) (start end : ℕ) (o : Outcome Response × Edge)
    → (log_response method path start end o).0 ≡ o.0
log_response-outcome method path start end (ok r, s) = refl
log_response-outcome method path start end (raised e, s) = refl

log_response-id :
    (method path : String) (start end : ℕ) (o : Outcome Response × Edge)
    → (log_response method path start end o).1.state_request_id ≡ o.1.state_request_id
log_response-id method path start end (ok r, s) = refl
log_response-id method path start end (raised e, s) = refl

-- The headers of app/api/security_headers.py.
pub record IsSecured (r : Response) : Type 0 where
  pub transport :
      header "Strict-Transport-Security" r.headers ≡ some "max-age=63072000; includeSubDomains"
  pub content_type : header "X-Content-Type-Options" r.headers ≡ some "nosniff"
  pub referrer : header "Referrer-Policy" r.headers ≡ some "no-referrer"
  pub frame : header "X-Frame-Options" r.headers ≡ some "DENY"
  pub content_policy : header "Content-Security-Policy" r.headers ≡ some "default-src 'none'"

secure-IsSecured :
    (r : Response) (id : String) → IsSecured (set_header "X-Request-ID" id (secure r))
secure-IsSecured r id = record {
  transport = simp header-put_header;
  content_type = simp header-put_header;
  referrer = simp header-put_header;
  frame = simp header-put_header;
  content_policy = simp header-put_header;
}

module _ (uuid : UuidModule) (starlette : Starlette uuid) (perf_counter : ℕ → ℕ) (enabled : Bool)
    (request : Request) (routes : Endpoint) (s : Edge) where
  -- The id of this request.
  abbrev chosen : String
  chosen = (choose_request_id uuid request.x_request_id s).0

  -- The application inside the access log, and what it does with this request.
  abbrev pub inner : Endpoint
  inner = security_headers enabled (starlette.cors (starlette.exception_layer routes))

  abbrev pub whole : Outcome Response × Edge
  whole = middleware uuid starlette perf_counter enabled request routes s

  -- What the access log hands on to the correlation.
  abbrev logged : Outcome Response × Edge
  logged =
      let t = (choose_request_id uuid request.x_request_id s).1 in
      access_log perf_counter request.method request.path inner
        (record t { state_request_id = chosen; request_id_var = chosen })

  whole_lem : whole ≡ (
    on_response (set_header "X-Request-ID" chosen) logged.0,
    record logged.1 {
      request_id_var = (choose_request_id uuid request.x_request_id s).1.request_id_var;
    },
  )
  unfolding middleware correlation
  whole_lem =
      with_request_id_lem chosen (access_log perf_counter request.method request.path inner)
        (choose_request_id uuid request.x_request_id s).1

  inner-secure :
      (t : Edge) (r' : Response)
      → enabled ≡ true
      → (inner t).0 ≡ ok r'
      → (r'' : Response) × (r' ≡ secure r'')
  unfolding security_headers
  inner-secure t r' on h = let (r'', returned, e) = on_response-ok secure _ (rw on at h) in (r'', e)

  access_log-inner :
      (t : Edge)
      → (access_log perf_counter request.method request.path inner t).0
        ≡ (inner (record t { asked = suc t.asked })).0
  unfolding access_log
  access_log-inner t = log_response-outcome _ _ _ _ _

  access_log-id :
      (t : Edge)
      → (access_log perf_counter request.method request.path inner t).1.state_request_id
        ≡ (inner (record t { asked = suc t.asked })).1.state_request_id
  unfolding access_log
  access_log-id t = log_response-id _ _ _ _ _

  -- A response that passes the middleware carries the request's id and, the setting
  -- `security_headers_enabled` being on, every security header.
  pub passed_response :
      (r : Response)
      → enabled ≡ true
      → whole.0 ≡ ok r
      → (header "X-Request-ID" r.headers ≡ some chosen) × IsSecured r
  passed_response r on h =
      let (r', returned, e) = on_response-ok _ logged.0 (ap (λ x. x.0) (sym whole_lem) ∙ h) in
      (
        rw e (header-put_header_self "X-Request-ID" chosen r'.headers),
        let (r'', secured) = inner-secure _ r' on (sym (access_log-inner _) ∙ returned) in
            subst IsSecured (sym (e ∙ ap (set_header "X-Request-ID" chosen) secured))
              (secure-IsSecured r'' chosen),
      )

  -- The application when the routes are reached.
  abbrev pub at_routes : Edge
  at_routes =
      let t = (choose_request_id uuid request.x_request_id s).1 in
      record t { state_request_id = chosen; request_id_var = chosen; asked = suc t.asked }

  -- Whether the routes return or raise, the context variable of the request id has its old value
  -- after the request, and `request.state.request_id` the one that the application inside the access
  -- log left in it, which began with both set to the id of the request.
  pub context_restored :
      (whole.1.request_id_var ≡ s.request_id_var)
      × (whole.1.state_request_id ≡ (inner at_routes).1.state_request_id)
  context_restored = rw whole_lem ((choose-context uuid request.x_request_id s).0, access_log-id _)

  -- The answer of the last handler.
  abbrev pub internal_error : Response
  internal_error = record {
    status_code = 500;
    headers = ("X-Request-ID", chosen) ∷ [];
    media_type = "application/problem+json";
    content =
        ("type", text "about:blank")
        ∷ ("title", text "Internal server error")
        ∷ ("status", number 500)
        ∷ ("detail", text "An unexpected error occurred.")
        ∷ ("code", text "internal-error")
        ∷ ("request_id", text chosen)
        ∷ [];
  }

  inner-raises :
      (e : Exception) (t : Edge)
      → has_own_handler e ≡ false
      → routes at_routes ≡ (raised e, t)
      → inner at_routes ≡ (raised e, t)
  unfolding security_headers
  inner-raises e t own raises =
      rw (starlette.cors_raises _ _ t e (starlette.unexpected routes at_routes t e own raises))
        (same_either_way enabled)
    where
      same_either_way :
          (b : Bool)
          → ◌≡◌ {A = Outcome Response × Edge}
              (if b then on_response secure (raised e) else raised e, t)
              (raised e, t)
      same_either_way true = refl
      same_either_way false = refl

  whole-raises :
      (e : Exception) (t : Edge)
      → has_own_handler e ≡ false
      → routes at_routes ≡ (raised e, t)
      → whole ≡ (
        raised e,
        record t {
          request_id_var = (choose_request_id uuid request.x_request_id s).1.request_id_var;
        },
      )
  unfolding access_log
  whole-raises e t own raises = whole_lem ∙ rw (inner-raises e t own raises) refl

  handled :
      (e : Exception) (t : Edge)
      → is_empty chosen ≡ false
      → t.state_request_id ≡ chosen
      → unhandled_exception_handler uuid e t ≡ (internal_error, t)
  unfolding unhandled_exception_handler resolve_request_id model_dump
  handled e t full kept = rw (kept, full)

  -- An exception that the routes raise and that has no handler of its own, where the request has a
  -- non-empty id which the routes leave in `request.state.request_id`, is answered by a fixed 500
  -- which shows nothing of the exception and carries the request's id. That answer has no security
  -- header, even where they are enabled, and the request leaves no line in the access log.
  pub unhandled_exception :
      (e : Exception) (t : Edge)
      → has_own_handler e ≡ false
      → is_empty chosen ≡ false
      → routes at_routes ≡ (raised e, t)
      → t.state_request_id ≡ chosen
      → ((serve uuid starlette perf_counter enabled request routes s).0 ≡ ok internal_error)
        × (header "X-Frame-Options" internal_error.headers ≡ none)
        × ((serve uuid starlette perf_counter enabled request routes s).1.access_log ≡ t.access_log)
  unfolding serve
  unhandled_exception e t own full raises kept =
      let t' = record t {
        request_id_var = (choose_request_id uuid request.x_request_id s).1.request_id_var;
      } in
      let answered = starlette.server_error _ s t' e (whole-raises e t own raises) in
      let known = handled e t' full kept in
      (
        ap (λ x. x.0) answered ∙ ap (λ x. ok x.0) known,
        refl,
        ap (λ x. x.1.access_log) answered ∙ ap (λ x. x.1.access_log) known,
      )
