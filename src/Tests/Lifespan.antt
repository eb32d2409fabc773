-- ===== src/Tests/Lifespan.antt =====
-- Tests of app/core/lifespan.py and of the client that app/core/wiring/http.py makes.
use ai_backend_foundation.Action.{Outcome, gets, lift, modify, ok, raised, try_finally, ◌>>=◌}
use ai_backend_foundation.Auth.Argon2Hasher.{
  Argon2Hasher, answered, argon2_password_hasher, verify_mismatch_error,
}
use ai_backend_foundation.Auth.JwtSigner.{PyJwt, expired_signature, failed}
use ai_backend_foundation.Core.Lifespan.{
  AppState, Snapshot, clean_up, lifespan, on_shutdown, on_startup, registry_at, set_ready,
  shutdown_redis, until_stopped, yield_to_server,
}
use ai_backend_foundation.Core.Lifespan.Readiness.{IsServing, lifespan-ready}
use ai_backend_foundation.Core.Lifespan.Release.{lifespan-closes, lifespan-leaks}
use ai_backend_foundation.Core.Lifespan.Serving.{Healthy, serving-readyz}
use ai_backend_foundation.Core.Wiring.{
  Libraries, db_probe, redis_probe, setup_db, setup_password_hasher, setup_redis_client,
  setup_storage, setup_token_signer,
}
use ai_backend_foundation.Infrastructure.Storage.{FilePath}
use ai_backend_foundation.Observability.Health.{readyz}
use ai_backend_foundation.Prelude.{
  [], eq_refl, false, if◌then◌else◌, inl, none, refl, some, str_eq, true, ℕ, ◌++◌, ◌↔◌, ◌∷◌, ◌≡◌,
  ◌≢◌, ◌⊎◌,
}
use ai_backend_foundation.Shared.Errors.{unexpected_error}
use ai_backend_foundation.Tests.Core.{the_settings}
use ai_backend_foundation.Tests.Setup.{uuids}

abbrev an_argon2 : Argon2Hasher
an_argon2 = record {
  hash = λ n s. s;
  verify = λ h s. if str_eq h s then answered true else verify_mismatch_error;
  check_needs_rehash = λ h. some false;
  verifies = λ n s. rw (eq_refl s) refl;
}

abbrev a_jwt : PyJwt
a_jwt = record {
  encode = λ claims key algorithm_name. key;
  decode = λ now token key algorithms audience issuer seconds. failed expired_signature;
}

-- Engines and clients are numbers; the storage can be resolved or not.
abbrev libraries_with : Outcome FilePath → Libraries
libraries_with path = record {
  Engine = ℕ;
  SessionFactory = ℕ;
  RedisClient = ℕ;
  create_async_engine = λ url. ok 1;
  async_sessionmaker = λ engine. engine;
  dispose = λ engine. ok tt;
  from_url = λ url. ok 2;
  aclose = λ client. ok tt;
  select_1 = λ n engine. (3, ok tt);
  ping = λ n client. (n, ok tt);
  resolve = λ local_dir. path;
  argon2 = λ settings. ok an_argon2;
  jwt = a_jwt;
  uuid = uuids;
  system_clock = record { now = λ n. n };
}

abbrev working : Libraries
working = libraries_with (ok ("/" ∷ "blobs" ∷ []))

abbrev broken : Libraries
broken = libraries_with (raised (unexpected_error "OSError"))

abbrev fresh : (libraries : Libraries) → AppState libraries
fresh libraries = record {
  container = record {
    settings = the_settings;
    probes = [];
    db_engine = none;
    session_factory = none;
    blob_storage = none;
    cache = none;
    password_hasher = none;
    token_signer = none;
    clock = none;
  };
  ready = false;
  open_engine = false;
  open_redis = false;
  served = [];
}

-- A server that is cancelled.
abbrev cancelled : {A : Type 0} → A → Outcome (Unit {0})
cancelled s = raised (unexpected_error "CancelledError")

stopped :
    (lifespan working cancelled (fresh working)).0 ≡ raised (unexpected_error "CancelledError")
unfolding lifespan on_startup until_stopped clean_up try_finally yield_to_server on_shutdown
    shutdown_redis set_ready setup_db setup_storage setup_password_hasher setup_redis_client ◌>>=◌
    gets lift modify
stopped = refl

has_served : (lifespan working cancelled (fresh working)).1.served ≢ []
unfolding lifespan on_startup until_stopped clean_up try_finally yield_to_server on_shutdown
    shutdown_redis set_ready setup_db setup_storage setup_password_hasher setup_redis_client ◌>>=◌
    gets lift modify
has_served h = cc

lifespan-ready_example :
    (let s' = (lifespan working cancelled (fresh working)).1 in
      (s'.ready ≡ false)
      × ((s'.served ≡ [])
          ⊎ ((snapshot : Snapshot working) × (s'.served ≡ [] ++ snapshot ∷ [])
              × IsServing working [] snapshot)))
lifespan-ready_example = lifespan-ready working cancelled (fresh working)

lifespan-closes_example :
    ((lifespan working cancelled (fresh working)).1.open_engine ≡ false)
    × ((lifespan working cancelled (fresh working)).1.open_redis ≡ false)
    × ((begun : AppState working) × ((lifespan working cancelled (fresh working)).0
          ≡ cancelled begun))
lifespan-closes_example =
    lifespan-closes working cancelled (fresh working) (λ engine. refl) (λ client. refl) has_served

lifespan-leaks_example :
    ((lifespan broken cancelled (fresh broken)).0 ≡ raised (unexpected_error "OSError"))
    × ((lifespan broken cancelled (fresh broken)).1.ready ≡ false)
    × ((lifespan broken cancelled (fresh broken)).1.open_engine ≡ true)
unfolding setup_storage setup_db
lifespan-leaks_example =
    lifespan-leaks broken cancelled (fresh broken) (1, 1) (unexpected_error "OSError") refl
      (inl refl)

abbrev serving_snapshot : Snapshot working
serving_snapshot = record {
  was_ready = true;
  had = record {
    settings = the_settings;
    probes = db_probe 1 ∷ redis_probe 2 ∷ [];
    db_engine = some 1;
    session_factory = some 1;
    blob_storage = some ("/" ∷ "blobs" ∷ []);
    cache = some 2;
    password_hasher = some (argon2_password_hasher an_argon2);
    token_signer = some (setup_token_signer working the_settings);
    clock = some working.system_clock;
  };
}

abbrev is_serving : IsServing working [] serving_snapshot
is_serving = record {
  flag = refl;
  engine = 1;
  made = refl;
  sessions = refl;
  storage = refl;
  client = 2;
  cached = refl;
  hashes = refl;
  signs = refl;
  time = refl;
  probes = refl;
}

-- Redis takes as many milliseconds as the number of the request says.
serving-readyz_example :
    ((readyz (registry_at working 5001 serving_snapshot.had) true).status_code ≡ 200)
    ↔ Healthy working 5001 serving_snapshot is_serving
serving-readyz_example = serving-readyz working 5001 serving_snapshot is_serving
