-- ===== src/Observability/AccessLog.antt =====
-- app/observability/middleware.py: `AccessLogMiddleware.dispatch`. `perf_counter` is in microseconds.
use ai_backend_foundation.Action.{Outcome, ok, raised}
use ai_backend_foundation.Http.{Edge, Endpoint, Response}
use ai_backend_foundation.Prelude.{String, [], suc, ℕ, ◌++◌, ◌-◌, ◌/◌, ◌∷◌}

abbrev pub log_response :
    String → String → ℕ → ℕ → Outcome Response × Edge → Outcome Response × Edge
log_response method path start end (raised e, s) = (raised e, s)
log_response method path start end (ok response, s) = (
  ok response,
  record s {
    asked = suc s.asked;
    access_log =
        s.access_log
        ++ record {
          method = method;
          path = path;
          status = response.status_code;
          duration_ms = (end - start) / 1000;
          request_id = s.request_id_var;
        }
          ∷ [];
  },
)

unfoldable pub access_log : (ℕ → ℕ) → String → String → Endpoint → Endpoint
access_log perf_counter method path call_next s =
    let start = perf_counter s.asked in
    let (r, s') = call_next (record s { asked = suc s.asked }) in
    log_response method path start (perf_counter s'.asked) (r, s')
