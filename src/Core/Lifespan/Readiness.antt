-- ===== src/Core/Lifespan/Readiness.antt =====
-- When app/core/lifespan.py says that the application is ready.
use ai_backend_foundation.Action.{
  Outcome, Outcome-cases, finally_outcome, gets, lift, modify, ok, raised, try_finally, ◌>>=◌, ◌>>◌,
}
use ai_backend_foundation.Auth.Ports.{PasswordHasher}
use ai_backend_foundation.Core.Lifespan.{
  AppState, Snapshot, after_close, clean_up, dispose_if, lifespan, on_shutdown, on_startup,
  set_ready, shutdown_redis, until_stopped, with_cache, with_db, with_hasher, with_signer,
  with_storage, yield_to_server,
}
use ai_backend_foundation.Core.Wiring.{
  Libraries, WiredProbe, db_probe, redis_probe, setup_db, setup_password_hasher, setup_redis_client,
  setup_storage,
}
use ai_backend_foundation.Infrastructure.Storage.{FilePath}
use ai_backend_foundation.Prelude.{
  List, Option, [], ap, false, inl, inr, is_some, none, refl, some, true, ◌++◌, ◌∙◌, ◌∷◌, ◌≡◌, ◌⊎◌,
}
use ai_backend_foundation.Shared.Errors.{Exception}

module _ (libraries : Libraries) where
  -- The state in which all hooks of start-up have run.
  abbrev pub started :
      libraries.Engine × libraries.SessionFactory
      → FilePath
      → PasswordHasher
      → AppState libraries
      → AppState libraries
  started pair base_path made_hasher s = with_signer libraries (
      with_hasher libraries made_hasher
        (with_storage libraries base_path (with_db libraries pair s)))

  abbrev pub Started : AppState libraries → Outcome (Unit {0}) × AppState libraries → Type 0
  Started s r =
      ((pair : libraries.Engine × libraries.SessionFactory) × (base_path : FilePath)
        × (made_hasher : PasswordHasher) × (r ≡ (ok tt, started pair base_path made_hasher s)))
      ⊎ ((e : Exception) × (s' : AppState libraries) × (r ≡ (raised e, s'))
          × (s'.ready ≡ s.ready)
          × (s'.served ≡ s.served))

  pub on_startup-cases : (s : AppState libraries) → Started s (on_startup libraries s)
  unfolding on_startup ◌>>=◌ gets lift modify
  on_startup-cases s = elim (Outcome-cases (setup_db libraries s.container.settings)) [
    | inr (e, h) ↦ rw h (inr (e, _, refl, refl, refl))
    | inl (pair, h) ↦ rw h (elim (Outcome-cases (setup_storage libraries s.container.settings)) [
      | inr (e, h) ↦ rw h (inr (e, _, refl, refl, refl))
      | inl (base_path, h) ↦
          rw h (elim (Outcome-cases (setup_password_hasher libraries s.container.settings)) [
            | inr (e, h) ↦ rw h (inr (e, _, refl, refl, refl))
            | inl (made_hasher, h) ↦ rw h (inl (pair, base_path, made_hasher, refl))
          ])
    ])
  ]

  abbrev pub not_ready : AppState libraries → AppState libraries
  not_ready s = record s { ready = false }

  abbrev pub with_client : libraries.RedisClient → AppState libraries → AppState libraries
  with_client client s = record s { open_redis = true }

  -- The hooks of start-up and the client of Redis worked, and the application served.
  abbrev pub Served :
      (AppState libraries → Outcome (Unit {0}))
      → AppState libraries
      → Outcome (Unit {0}) × AppState libraries
      → Type 0
  Served server s r =
      (pair : libraries.Engine × libraries.SessionFactory) × (base_path : FilePath)
      × (made_hasher : PasswordHasher) × (client : libraries.RedisClient) × (r
          ≡ try_finally (until_stopped libraries server client) (clean_up libraries client)
              (with_client client (started pair base_path made_hasher (not_ready s))))

  abbrev pub NotStarted : AppState libraries → Outcome (Unit {0}) × AppState libraries → Type 0
  NotStarted s r =
      (e : Exception) × (s' : AppState libraries) × (r ≡ (raised e, s'))
      × (s'.ready ≡ false)
      × (s'.served ≡ s.served)

  pub lifespan-cases :
      (server : AppState libraries → Outcome (Unit {0})) (s : AppState libraries)
      → NotStarted s (lifespan libraries server s) ⊎ Served server s (lifespan libraries server s)
  unfolding lifespan ◌>>=◌ gets lift modify set_ready
  lifespan-cases server s = elim (on_startup-cases (not_ready s)) [
    | inr (e, s', h, ready, same) ↦ rw h (inl (e, s', refl, ready, same))
    | inl (pair, base_path, made_hasher, h) ↦
        rw h (elim (Outcome-cases (setup_redis_client libraries s.container.settings)) [
          | inr (e, h) ↦ rw h (inl (e, _, refl, refl, refl))
          | inl (client, h) ↦ rw h (inr (pair, base_path, made_hasher, client, refl))
        ])
  ]

  closed :
      (r : Outcome (Unit {0})) (s : AppState libraries)
      → ((after_close libraries r s).ready ≡ s.ready)
        × ((after_close libraries r s).served ≡ s.served)
  closed (ok a) s = (refl, refl)
  closed (raised e) s = (refl, refl)

  shut :
      (client : libraries.RedisClient) (engine : Option libraries.Engine) (s : AppState libraries)
      → (let s' = ((dispose_if libraries engine >> shutdown_redis libraries client) s).1 in
          (s'.ready ≡ s.ready) × (s'.served ≡ s.served))
  unfolding ◌>>=◌ shutdown_redis
  shut client none s = closed (libraries.aclose client) s
  shut client (some engine) s = elim (Outcome-cases (libraries.dispose engine)) [
    | inl (a, h) ↦ rw h (closed (libraries.aclose client) (record s { open_engine = false }))
    | inr (x, h) ↦ rw h (refl, refl)
  ]

  -- Cleaning up clears the flag, and serves nothing more.
  pub clean_up-ready :
      (client : libraries.RedisClient) (s : AppState libraries)
      → ((clean_up libraries client s).1.ready ≡ false)
        × ((clean_up libraries client s).1.served ≡ s.served)
  unfolding clean_up on_shutdown ◌>>=◌ set_ready
  clean_up-ready client s = shut client s.container.db_engine (not_ready s)

pub finally_state :
    {A S : Type 0} (r : Outcome A) (last : Outcome (Unit {0}) × S)
    → (finally_outcome r last).1 ≡ last.1
finally_state r (ok a, s) = refl
finally_state r (raised e, s) = refl

-- A state with the flag set, and a container in which every component is wired and both probes are
-- registered after those that were.
pub record IsServing (libraries : Libraries) (before : List (WiredProbe libraries))
    (s : Snapshot libraries) : Type 0 where
  pub flag : s.was_ready ≡ true
  pub engine : libraries.Engine
  pub made : s.had.db_engine ≡ some engine
  pub sessions : is_some s.had.session_factory ≡ true
  pub storage : is_some s.had.blob_storage ≡ true
  pub client : libraries.RedisClient
  pub cached : s.had.cache ≡ some client
  pub hashes : is_some s.had.password_hasher ≡ true
  pub signs : is_some s.had.token_signer ≡ true
  pub time : is_some s.had.clock ≡ true
  pub probes : s.had.probes ≡ (before ++ db_probe engine ∷ []) ++ redis_probe client ∷ []

module _ (libraries : Libraries) (server : AppState libraries → Outcome (Unit {0}))
    (s : AppState libraries) where
  -- However the application starts, serves and shuts down, the flag is not set at the end. The server
  -- runs at most once, and then with the flag set and the container wired in full.
  pub lifespan-ready :
      (let s' = (lifespan libraries server s).1 in
        (s'.ready ≡ false)
        × ((s'.served ≡ s.served)
            ⊎ ((snapshot : Snapshot libraries) × (s'.served ≡ s.served ++ snapshot ∷ [])
                × IsServing libraries s.container.probes snapshot)))
  unfolding until_stopped try_finally yield_to_server set_ready modify ◌>>=◌
  lifespan-ready = elim (lifespan-cases libraries server s) [
    | inl (e, s', h, ready, same) ↦ rw h (ready, inl same)
    | inr (pair, base_path, made_hasher, client, h) ↦
        let begun =
          with_client libraries client
            (started libraries pair base_path made_hasher (not_ready libraries s)) in
        let after = (until_stopped libraries server client begun).1 in
        let done = clean_up-ready libraries client after in
        let ends =
          ap (λ r. r.1) h
          ∙ finally_state (server (record (with_cache libraries client begun) { ready = true }))
              (clean_up libraries client after) in
        rw ends (
          done.0,
          inr (
            _,
            done.1,
            record {
              flag = refl;
              engine = pair.0;
              made = refl;
              sessions = refl;
              storage = refl;
              client = client;
              cached = refl;
              hashes = refl;
              signs = refl;
              time = refl;
              probes = refl;
            },
          ),
        )
  ]
