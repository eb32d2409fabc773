-- ===== src/Observability/Health/Endpoints.antt =====
-- What the health endpoints tell of the probes.
use ai_backend_foundation.Action.{Outcome-cases, ok}
use ai_backend_foundation.Observability.Health.{
  Probe, ProbeRegistry, ProbeResult, ProbeStatus, all_ok, healthy, healthz, is_healthy,
  payload_from, put_status, readyz, results_payload, run_all, safe_check,
}
use ai_backend_foundation.Prelude.{
  All, Bool, List, Option, String, [], ap, arith, eq_iff, if◌then◌else◌, inl, inr, map, none, refl,
  some, str_eq, true, ◌↔◌, ◌∙◌, ◌∷◌, ◌≡◌, ◌≤◌,
}

-- The probe's check ends in time and reports that all is well.
pub record IsWell (p : Probe) : Type 0 where
  pub in_time : p.took_ms ≤ 5000
  pub result : ProbeResult
  pub returned : p.check ≡ ok result
  pub well : result.status ≡ healthy

safe_check-IsWell : (p : Probe) → is_healthy (safe_check p).status ≡ true → IsWell p
unfolding safe_check
safe_check-IsWell p h = elim (Outcome-cases p.check) [
  | inl (r, e) ↦ record { in_time = ground arith; result = r; returned = e; well = ground arith }
  | inr (x, e) ↦ absurd (ground arith)
]

IsWell-safe_check : (p : Probe) → IsWell p → is_healthy (safe_check p).status ≡ true
unfolding safe_check
IsWell-safe_check p h = ground arith

all_ok-IsWell : (probes : List Probe) → all_ok (map safe_check probes) ≡ true → All IsWell probes
unfolding all_ok
all_ok-IsWell [] h = tt
all_ok-IsWell (p ∷ probes) h =
    (safe_check-IsWell p (ground arith), all_ok-IsWell probes (ground arith))

IsWell-all_ok : (probes : List Probe) → All IsWell probes → all_ok (map safe_check probes) ≡ true
unfolding all_ok
IsWell-all_ok [] h = refl
IsWell-all_ok (p ∷ probes) (q, h) = rw (IsWell-safe_check p q, IsWell-all_ok probes h)

-- /healthz answers 200 exactly when every registered probe is well, and /readyz exactly when the
-- application is ready too.
pub health_iff :
    (registry : ProbeRegistry) (ready : Bool)
    → (((healthz registry).status_code ≡ 200) ↔ All IsWell registry.probes)
      × (((readyz registry ready).status_code ≡ 200)
          ↔ ((ready ≡ true) × All IsWell registry.probes))
unfolding healthz readyz run_all
health_iff registry ready =
    let probes = registry.probes in
    let to = all_ok-IsWell probes in
    let from = IsWell-all_ok probes in
    (
      (λ h. to (ground arith), λ a. rw (from a) refl),
      (λ h. (ground arith, to (ground arith)), λ a. rw (a.0, from a.1) refl),
    )

abbrev pub status_of : String → List (String × ProbeStatus) → Option ProbeStatus
status_of name [] = none
status_of name ((k, v) ∷ d) = if str_eq k name then some v else status_of name d

-- The status of the last result of that name.
abbrev pub last_status : String → Option ProbeStatus → List ProbeResult → Option ProbeStatus
last_status name found [] = found
last_status name found (r ∷ results) =
    last_status name (if str_eq r.name name then some r.status else found) results

status_of-put_status :
    (name key : String) (status : ProbeStatus) (d : List (String × ProbeStatus))
    → status_of name (put_status key status d)
      ≡ (if str_eq key name then some status else status_of name d)
status_of-put_status name key status [] = refl
status_of-put_status name key status ((k, v) ∷ d) =
    ground
      (arith, eq_iff k key, eq_iff k name, eq_iff key name, status_of-put_status name key status d)

status_of-payload_from :
    (name : String) (d : List (String × ProbeStatus)) (results : List ProbeResult)
    → status_of name (payload_from d results) ≡ last_status name (status_of name d) results
status_of-payload_from name d [] = refl
status_of-payload_from name d (r ∷ results) =
    status_of-payload_from name (put_status r.name r.status d) results
    ∙ ap (λ found. last_status name found results) (status_of-put_status name r.name r.status d)

-- The payload of a failed check gives each name the status of the last probe that reported under it,
-- and no other name: of two probes with one name the earlier is hidden.
pub status_of-results_payload :
    (name : String) (results : List ProbeResult)
    → status_of name (results_payload results) ≡ last_status name none results
unfolding results_payload
status_of-results_payload name results = status_of-payload_from name [] results
