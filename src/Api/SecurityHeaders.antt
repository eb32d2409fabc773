-- ===== src/Api/SecurityHeaders.antt =====
-- app/api/security_headers.py: `SecurityHeadersMiddleware.dispatch`.
use ai_backend_foundation.Http.{Endpoint, Response, on_response, set_header}
use ai_backend_foundation.Prelude.{Bool, if◌then◌else◌}

abbrev pub secure : Response → Response
secure response = set_header "Content-Security-Policy" "default-src 'none'" (
    set_header "X-Frame-Options" "DENY" (
      set_header "Referrer-Policy" "no-referrer" (
        set_header "X-Content-Type-Options" "nosniff"
          (set_header "Strict-Transport-Security" "max-age=63072000; includeSubDomains" response))))

unfoldable pub security_headers : Bool → Endpoint → Endpoint
security_headers enabled call_next s =
    let (r, s') = call_next s in (if enabled then on_response secure r else r, s')
