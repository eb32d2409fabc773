-- ===== src/Observability/Health.antt =====
-- app/observability/health.py: probes, their registry, and the endpoints /livez, /healthz, /readyz.
-- A probe is given by what its `check()` does within a request: how long it takes and how it ends.
pub mod Endpoints
use ai_backend_foundation.Action.{Outcome, ok, raised}
use ai_backend_foundation.Prelude.{
  Bool, List, Option, String, [], all, false, if◌then◌else◌, ltb, map, none, not, some, str_eq,
  true, ℕ, ◌++◌, ◌∷◌,
}
use ai_backend_foundation.Shared.Errors.{unexpected_error}

pub data ProbeStatus : Type 0 where
  healthy degraded error : ProbeStatus

pub record ProbeResult : Type 0 where
  pub name : String
  pub status : ProbeStatus
  pub latency_ms : Option ℕ

pub record Probe : Type 0 where
  pub name : String
  pub took_ms : ℕ
  pub check : Outcome ProbeResult

pub record ProbeRegistry : Type 0 where
  pub probes : List Probe

-- `ProbeRegistry.add_probe`: in the order of registration.
unfoldable pub add_probe : ProbeRegistry → Probe → ProbeRegistry
add_probe registry probe = record { probes = registry.probes ++ probe ∷ [] }

-- `asyncio.wait_for(…, timeout=5.0)` raises `TimeoutError` on a check that takes longer.
abbrev pub wait_for : ℕ → Probe → Outcome ProbeResult
wait_for timeout_ms probe =
    if ltb timeout_ms probe.took_ms then raised (unexpected_error "TimeoutError") else probe.check

abbrev pub or_error : String → Outcome ProbeResult → ProbeResult
or_error name (ok result) = result
or_error name (raised e) = record { name = name; status = error; latency_ms = none }

-- `_safe_check`
unfoldable pub safe_check : Probe → ProbeResult
safe_check probe = or_error probe.name (wait_for 5000 probe)

-- `ProbeRegistry.run_all`: `gather` keeps the order.
unfoldable pub run_all : ProbeRegistry → List ProbeResult
run_all registry = map safe_check registry.probes

abbrev pub is_healthy : ProbeStatus → Bool
is_healthy healthy = true
is_healthy degraded = false
is_healthy error = false

unfoldable pub all_ok : List ProbeResult → Bool
all_ok results = all (λ r. is_healthy r.status) results

-- `d[name] = status` on a dictionary: a name that is there keeps its place.
abbrev pub put_status :
    String → ProbeStatus → List (String × ProbeStatus) → List (String × ProbeStatus)
put_status name status [] = (name, status) ∷ []
put_status name status ((k, v) ∷ d) =
    if str_eq k name then (k, status) ∷ d else (k, v) ∷ put_status name status d

abbrev pub payload_from :
    List (String × ProbeStatus) → List ProbeResult → List (String × ProbeStatus)
payload_from d [] = d
payload_from d (r ∷ results) = payload_from (put_status r.name r.status d) results

-- `_results_payload`
unfoldable pub results_payload : List ProbeResult → List (String × ProbeStatus)
results_payload results = payload_from [] results

-- The status code and the body of an answer.
pub record HealthResponse : Type 0 where
  pub status_code : ℕ
  pub status : String
  pub probes : Option (List (String × ProbeStatus))

abbrev pub answer : ℕ → String → Option (List (String × ProbeStatus)) → HealthResponse
answer code status probes = record { status_code = code; status = status; probes = probes }

unfoldable pub livez : HealthResponse
livez = answer 200 "ok" none

abbrev pub report : List ProbeResult → HealthResponse
report results =
    if not (all_ok results)
    then answer 503 "error" (some (results_payload results))
    else answer 200 "ok" none

unfoldable pub healthz : ProbeRegistry → HealthResponse
healthz registry = report (run_all registry)

-- `is_ready` is what the callable returns at this request.
unfoldable pub readyz : ProbeRegistry → Bool → HealthResponse
readyz registry is_ready =
    if not is_ready then answer 503 "starting" none else report (run_all registry)
