-- ===== src/Core/Lifespan.antt =====
-- app/core/lifespan.py: start-up, the readiness flag and shutdown. `server` is what happens while the
-- application serves requests: it returns when the server stops, or an exception comes in.
pub mod Readiness
pub mod Release
pub mod Serving
use ai_backend_foundation.Action.{
  Action, Outcome, gets, lift, modify, ok, raised, try_finally, ◌>>=◌, ◌>>◌,
}
use ai_backend_foundation.Auth.Ports.{PasswordHasher, TokenSigner}
use ai_backend_foundation.Core.Settings.App.{AppSettings}
use ai_backend_foundation.Core.Wiring.{
  Libraries, WiredProbe, check_probe, db_probe, redis_probe, setup_db, setup_password_hasher,
  setup_redis_client, setup_storage, setup_token_signer,
}
use ai_backend_foundation.Infrastructure.Storage.{FilePath}
use ai_backend_foundation.Observability.Health.{ProbeRegistry}
use ai_backend_foundation.Prelude.{
  Bool, List, Option, [], false, map, none, some, true, ℕ, ◌++◌, ◌∷◌,
}
use ai_backend_foundation.Shared.Types.{Clock}

-- The container of app/core/container.py, with the probes of its registry.
pub record Container (libraries : Libraries) : Type 0 where
  pub settings : AppSettings
  pub probes : List (WiredProbe libraries)
  pub db_engine : Option libraries.Engine
  pub session_factory : Option libraries.SessionFactory
  pub blob_storage : Option FilePath
  pub cache : Option libraries.RedisClient
  pub password_hasher : Option PasswordHasher
  pub token_signer : Option TokenSigner
  pub clock : Option Clock

pub record Snapshot (libraries : Libraries) : Type 0 where
  pub was_ready : Bool
  pub had : Container libraries

-- `app.state`, whether the engine and the client of Redis are open, and the state of the application
-- each time that it began to serve.
pub record AppState (libraries : Libraries) : Type 0 where
  pub container : Container libraries
  pub ready : Bool
  pub open_engine : Bool
  pub open_redis : Bool
  pub served : List (Snapshot libraries)

module _ (libraries : Libraries) where
  abbrev pub Hook : Type 0 → Type 0
  Hook = Action (AppState libraries)

  abbrev pub update_container :
      (Container libraries → Container libraries) → AppState libraries → AppState libraries
  update_container f s = record s { container = f s.container }

  abbrev pub register_probe : WiredProbe libraries → Container libraries → Container libraries
  register_probe probe c = record c { probes = c.probes ++ probe ∷ [] }

  -- The registry of the container as `run_all` finds it at a request.
  abbrev pub registry_at : ℕ → Container libraries → ProbeRegistry
  registry_at n c = record { probes = map (check_probe libraries n) c.probes }

  -- The assignments of the engine and the session factory, and the probe of the database.
  abbrev pub with_db :
      libraries.Engine × libraries.SessionFactory → AppState libraries → AppState libraries
  with_db (engine, session_factory) s =
      record (update_container
        (λ c.
          register_probe (db_probe engine)
            (record c { db_engine = some engine; session_factory = some session_factory }))
        s) { open_engine = true }

  abbrev pub with_storage : FilePath → AppState libraries → AppState libraries
  with_storage base_path = update_container λ c. record c { blob_storage = some base_path }

  abbrev pub with_hasher : PasswordHasher → AppState libraries → AppState libraries
  with_hasher hasher = update_container λ c. record c { password_hasher = some hasher }

  -- The signer and the clock, which are made without fail.
  abbrev pub with_signer : AppState libraries → AppState libraries
  with_signer = update_container λ c. record c {
    token_signer = some (setup_token_signer libraries c.settings);
    clock = some libraries.system_clock;
  }

  -- `_on_startup`
  unfoldable pub on_startup : Hook (Unit {0})
  on_startup = do
    db ← gets (λ s. setup_db libraries s.container.settings)
    pair ← lift db
    modify (with_db pair)
    storage ← gets (λ s. setup_storage libraries s.container.settings)
    base_path ← lift storage
    modify (with_storage base_path)
    made ← gets (λ s. setup_password_hasher libraries s.container.settings)
    hasher ← lift made
    modify (with_hasher hasher)
    modify with_signer

  abbrev pub after_dispose : Outcome (Unit {0}) → AppState libraries → AppState libraries
  after_dispose (ok a) s = record s { open_engine = false }
  after_dispose (raised e) s = s

  abbrev pub dispose_if : Option libraries.Engine → Hook (Unit {0})
  dispose_if none s = (ok tt, s)
  dispose_if (some engine) s = let r = libraries.dispose engine in (r, after_dispose r s)

  -- `_on_shutdown`
  unfoldable pub on_shutdown : Hook (Unit {0})
  on_shutdown s = dispose_if s.container.db_engine s

  abbrev pub after_close : Outcome (Unit {0}) → AppState libraries → AppState libraries
  after_close (ok a) s = record s { open_redis = false }
  after_close (raised e) s = s

  unfoldable pub shutdown_redis : libraries.RedisClient → Hook (Unit {0})
  shutdown_redis client s = let r = libraries.aclose client in (r, after_close r s)

  unfoldable pub set_ready : Bool → Hook (Unit {0})
  set_ready b s = (ok tt, record s { ready = b })

  abbrev pub with_cache : libraries.RedisClient → AppState libraries → AppState libraries
  with_cache client =
      update_container λ c. register_probe (redis_probe client) (record c { cache = some client })

  unfoldable pub clean_up : libraries.RedisClient → Hook (Unit {0})
  clean_up client = do set_ready false; on_shutdown; shutdown_redis client

  module _ (server : AppState libraries → Outcome (Unit {0})) where
    -- `yield`
    unfoldable pub yield_to_server : Hook (Unit {0})
    yield_to_server s = (
      server s,
      record s { served = s.served ++ (record { was_ready = s.ready; had = s.container }) ∷ [] },
    )

    unfoldable pub until_stopped : libraries.RedisClient → Hook (Unit {0})
    until_stopped client = do modify (with_cache client); set_ready true; yield_to_server

    unfoldable pub lifespan : Hook (Unit {0})
    lifespan = do
      set_ready false
      on_startup
      built ← gets (λ s. setup_redis_client libraries s.container.settings)
      client ← lift built
      modify (λ s. record s { open_redis = true })
      try_finally (until_stopped client) (clean_up client)
