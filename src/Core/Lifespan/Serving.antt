-- ===== src/Core/Lifespan/Serving.antt =====
-- What app/observability/health.py answers while app/core/lifespan.py serves.
use ai_backend_foundation.Action.{Outcome, ok, raised}
use ai_backend_foundation.Core.Lifespan.{Snapshot, registry_at}
use ai_backend_foundation.Core.Lifespan.Readiness.{IsServing}
use ai_backend_foundation.Core.Wiring.{Libraries, ok_result, probe_of, then_return}
use ai_backend_foundation.Observability.Health.{readyz}
use ai_backend_foundation.Observability.Health.Endpoints.{IsWell, health_iff}
use ai_backend_foundation.Prelude.{All, String, [], ap, refl, ℕ, ◌↔◌, ◌≡◌, ◌≤◌}

-- A call that ends in time and does not raise.
abbrev pub Answers : ℕ × Outcome (Unit {0}) → Type 0
Answers (took_ms, r) = (took_ms ≤ 5000) × (r ≡ ok tt)

IsWell-Answers : (name : String) (x : ℕ × Outcome (Unit {0})) → IsWell (probe_of name x) → Answers x
IsWell-Answers name (took_ms, ok a) h = (h.in_time, refl)
IsWell-Answers name (took_ms, raised e) h = let r = h.returned in cc

Answers-IsWell : (name : String) (x : ℕ × Outcome (Unit {0})) → Answers x → IsWell (probe_of name x)
Answers-IsWell name (took_ms, r) h = record {
  in_time = h.0;
  result = ok_result name;
  returned = ap (then_return (λ _. ok_result name)) h.1;
  well = refl;
}

module _ (libraries : Libraries) (n : ℕ) (snapshot : Snapshot libraries)
    (serving : IsServing libraries [] snapshot) where
  abbrev pub Healthy : Type 0
  Healthy =
      Answers (libraries.select_1 n serving.engine) × Answers (libraries.ping n serving.client)

  probes-IsWell : All IsWell (registry_at libraries n snapshot.had).probes ↔ Healthy
  probes-IsWell = rw serving.probes (
    (λ h. (IsWell-Answers "db" _ h.0, IsWell-Answers "redis" _ h.1.0)),
    (λ h. (Answers-IsWell "db" _ h.0, (Answers-IsWell "redis" _ h.1, tt))),
  )

  -- While the application serves, of a container that had no probes, `/readyz` answers 200 exactly when
  -- the database answers `SELECT 1` and Redis answers `PING` within five seconds each, without raising.
  pub serving-readyz :
      ((readyz (registry_at libraries n snapshot.had) snapshot.was_ready).status_code ≡ 200)
      ↔ Healthy
  serving-readyz =
      let both = (health_iff (registry_at libraries n snapshot.had) snapshot.was_ready).1 in
      ((λ h. probes-IsWell.0 (both.0 h).1), (λ h. both.1 (serving.flag, probes-IsWell.1 h)))
