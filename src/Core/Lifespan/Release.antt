-- ===== src/Core/Lifespan/Release.antt =====
-- What app/core/lifespan.py closes at the end.
use ai_backend_foundation.Action.{
  Outcome, finally_outcome, gets, lift, modify, ok, raised, try_finally, ◌>>=◌,
}
use ai_backend_foundation.Auth.Ports.{PasswordHasher}
use ai_backend_foundation.Core.Lifespan.{
  AppState, clean_up, lifespan, on_shutdown, on_startup, set_ready, shutdown_redis, until_stopped,
  with_cache, yield_to_server,
}
use ai_backend_foundation.Core.Lifespan.Readiness.{
  finally_state, lifespan-cases, not_ready, started, with_client,
}
use ai_backend_foundation.Core.Settings.App.{AppSettings}
use ai_backend_foundation.Core.Wiring.{
  Libraries, setup_db, setup_password_hasher, setup_redis_client, setup_storage,
}
use ai_backend_foundation.Infrastructure.Storage.{FilePath}
use ai_backend_foundation.Prelude.{ap, false, inl, inr, refl, some, true, ◌∙◌, ◌≡◌, ◌≢◌, ◌⊎◌}
use ai_backend_foundation.Shared.Errors.{Exception}

module _ (libraries : Libraries) where
  -- A step of start-up after the engine raises `e`: the storage, the hasher or the client of Redis.
  abbrev pub LateFailure : AppSettings → Exception → Type 0
  LateFailure settings e =
      (setup_storage libraries settings ≡ raised e)
      ⊎ ((base_path : FilePath) × (setup_storage libraries settings ≡ ok base_path)
          × ((setup_password_hasher libraries settings ≡ raised e)
              ⊎ ((made_hasher : PasswordHasher) × (setup_password_hasher libraries settings
                    ≡ ok made_hasher)
                  × (setup_redis_client libraries settings ≡ raised e))))

  -- When a step of start-up after the making of the engine raises, that exception comes out, the
  -- application is not ready, and the engine stays open.
  pub lifespan-leaks :
      (server : AppState libraries → Outcome (Unit {0})) (s : AppState libraries)
      (pair : libraries.Engine × libraries.SessionFactory) (e : Exception)
      → setup_db libraries s.container.settings ≡ ok pair
      → LateFailure s.container.settings e
      → ((lifespan libraries server s).0 ≡ raised e)
        × ((lifespan libraries server s).1.ready ≡ false)
        × ((lifespan libraries server s).1.open_engine ≡ true)
  unfolding lifespan on_startup ◌>>=◌ gets lift modify set_ready
  lifespan-leaks server s pair e made (inl h) = rw (made, h) (refl, refl, refl)
  lifespan-leaks server s pair e made (inr (base_path, stored, inl h)) =
      rw (made, stored, h) (refl, refl, refl)
  lifespan-leaks server s pair e made (inr (base_path, stored, inr (made_hasher, hashed, h))) =
      rw (made, stored, hashed, h) (refl, refl, refl)

  closed_both :
      (client : libraries.RedisClient) (engine : libraries.Engine) (s : AppState libraries)
      → s.container.db_engine ≡ some engine
      → libraries.dispose engine ≡ ok tt
      → libraries.aclose client ≡ ok tt
      → ((clean_up libraries client s).0 ≡ ok tt)
        × ((clean_up libraries client s).1.open_engine ≡ false)
        × ((clean_up libraries client s).1.open_redis ≡ false)
  unfolding clean_up on_shutdown ◌>>=◌ set_ready shutdown_redis
  closed_both client engine s wired disposed closed =
      rw (wired, disposed, closed) (refl, refl, refl)

  -- An outcome that `finally` lets through.
  passed :
      {A S : Type 0} (r : Outcome A) (last : Outcome (Unit {0}) × S)
      → last.0 ≡ ok tt
      → (finally_outcome r last).0 ≡ r
  passed r (ok a, s) h = refl
  passed r (raised e, s) h = cc

  -- If disposing of an engine and closing a client do not raise, then whenever the server ran, whether
  -- it returned or raised, the engine and the client of Redis are closed at the end, and what the
  -- server returned or raised comes out.
  pub lifespan-closes :
      (server : AppState libraries → Outcome (Unit {0})) (s : AppState libraries)
      → ((engine : libraries.Engine) → libraries.dispose engine ≡ ok tt)
      → ((client : libraries.RedisClient) → libraries.aclose client ≡ ok tt)
      → (lifespan libraries server s).1.served ≢ s.served
      → ((lifespan libraries server s).1.open_engine ≡ false)
        × ((lifespan libraries server s).1.open_redis ≡ false)
        × ((begun : AppState libraries) × ((lifespan libraries server s).0 ≡ server begun))
  unfolding until_stopped try_finally yield_to_server set_ready modify ◌>>=◌
  lifespan-closes server s disposes closes ran = elim (lifespan-cases libraries server s) [
    | inl (e, s', h, ready, same) ↦ absurd (ran (ap (λ r. r.1.served) h ∙ same))
    | inr (pair, base_path, made_hasher, client, h) ↦
        let begun =
          with_client libraries client
            (started libraries pair base_path made_hasher (not_ready libraries s)) in
        let at = record (with_cache libraries client begun) { ready = true } in
        let after = (until_stopped libraries server client begun).1 in
        let done = closed_both client pair.0 after refl (disposes pair.0) (closes client) in
        let ends = ap (λ r. r.1) h ∙ finally_state (server at) (clean_up libraries client after) in
        (
          ap (λ x. x.open_engine) ends ∙ done.1,
          ap (λ x. x.open_redis) ends ∙ done.2,
          (at, ap (λ r. r.0) h ∙ passed (server at) (clean_up libraries client after) done.0),
        )
  ]
