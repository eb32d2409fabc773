-- ===== src/Core/Wiring.antt =====
-- The package app/core/wiring: how the adapters are made of the settings.
pub mod Loaded
use Prim.Native.String.{◌++◌ as str_append}
use ai_backend_foundation.Action.{Outcome, ok, raised}
use ai_backend_foundation.Auth.Argon2Hasher.{Argon2Hasher, argon2_password_hasher}
use ai_backend_foundation.Auth.JwtSigner.{JwtSigner, PyJwt, jwt_sign, jwt_verify}
use ai_backend_foundation.Auth.Ports.{PasswordHasher, TokenSigner}
use ai_backend_foundation.Core.Settings.App.{AppSettings}
use ai_backend_foundation.Core.Settings.Limits.{Argon2Settings, HttpSettings}
use ai_backend_foundation.Infrastructure.HttpClient.{HttpClientSettings, Timeout, build_http_client}
use ai_backend_foundation.Infrastructure.Storage.{FilePath}
use ai_backend_foundation.Observability.Health.{Probe, ProbeResult, healthy}
use ai_backend_foundation.Prelude.{String, if◌then◌else◌, negsuc, none, pos, str_eq, ℕ, ℤ, ◌++◌}
use ai_backend_foundation.Shared.Errors.{value_error}
use ai_backend_foundation.Shared.Types.{Clock, UuidModule}

-- `max(n, 0)`, the number of a count that is not negative
abbrev pub nat_of : ℤ → ℕ
nat_of (pos n) = n
nat_of (negsuc n) = 0

-- The section `http` of the settings, as the protocol of the client sees it.
unfoldable pub http_client_settings : HttpSettings → HttpClientSettings
http_client_settings settings = record {
  connect_timeout_s = nat_of settings.connect_timeout_s;
  read_timeout_s = nat_of settings.read_timeout_s;
  total_timeout_s = nat_of settings.total_timeout_s;
  retry_max_attempts = nat_of settings.retry_max_attempts;
  retry_backoff_factor = nat_of settings.retry_backoff_factor;
}

unfoldable pub setup_http_client : AppSettings → Timeout
setup_http_client settings = build_http_client (http_client_settings settings.http)

-- The libraries whose objects the adapters hold: what making and closing them gives or raises.
pub record Libraries : Type 1 where
  pub Engine : Type 0
  pub SessionFactory : Type 0
  pub RedisClient : Type 0
  pub create_async_engine : String → Outcome Engine
  pub async_sessionmaker : Engine → SessionFactory
  pub dispose : Engine → Outcome (Unit {0})
  pub from_url : String → Outcome RedisClient
  pub aclose : RedisClient → Outcome (Unit {0})
  -- `SELECT 1` and `PING` at the request of that number: how many milliseconds they take, and whether
  -- they raise.
  pub select_1 : ℕ → Engine → ℕ × Outcome (Unit {0})
  pub ping : ℕ → RedisClient → ℕ × Outcome (Unit {0})
  pub resolve : String → Outcome FilePath
  pub argon2 : Argon2Settings → Outcome Argon2Hasher
  pub jwt : PyJwt
  pub uuid : UuidModule
  pub system_clock : Clock

abbrev pub then_return : {A B : Type 0} → (A → B) → Outcome A → Outcome B
then_return f (ok a) = ok (f a)
then_return f (raised e) = raised e

-- A `JwtSigner` as an implementation of the port `TokenSigner`: the time and the identifier of a
-- token are those of the question.
unfoldable pub token_signer_of : JwtSigner → Clock → TokenSigner
token_signer_of self clock = record {
  sign = λ n claims. jwt_sign self (clock.now n) (self.uuid.uuid4 n) claims;
  verify = λ n token. jwt_verify self (clock.now n) token;
}

module _ (libraries : Libraries) (settings : AppSettings) where
  -- `Argon2PasswordHasher(…)`
  unfoldable pub setup_password_hasher : Outcome PasswordHasher
  setup_password_hasher = then_return argon2_password_hasher (libraries.argon2 settings.argon2)

  -- A TTL that is negative is outside of the model.
  unfoldable pub setup_token_signer : TokenSigner
  setup_token_signer =
      token_signer_of
        (record {
          jwt = libraries.jwt;
          uuid = libraries.uuid;
          private_key = settings.jwt.private_key;
          public_key = settings.jwt.public_key;
          issuer = settings.jwt.issuer;
          audience = settings.jwt.audience;
          access_ttl_seconds = nat_of settings.jwt.access_ttl_seconds;
        })
        libraries.system_clock

  -- The blob storage is its base path.
  unfoldable pub setup_storage : Outcome FilePath
  setup_storage =
      if str_eq settings.blob.backend "local"
      then libraries.resolve settings.blob.local_dir
      else raised
          (value_error (str_append "Unsupported blob storage backend: " settings.blob.backend))

  unfoldable pub setup_db : Outcome (libraries.Engine × libraries.SessionFactory)
  setup_db =
      then_return (λ engine. (engine, libraries.async_sessionmaker engine))
        (libraries.create_async_engine settings.db.url)

  unfoldable pub setup_redis_client : Outcome libraries.RedisClient
  setup_redis_client = libraries.from_url settings.redis.url

pub data WiredProbe (libraries : Libraries) : Type 0 where
  db_probe : libraries.Engine → WiredProbe libraries
  redis_probe : libraries.RedisClient → WiredProbe libraries

abbrev pub ok_result : String → ProbeResult
ok_result name = record { name = name; status = healthy; latency_ms = none }

abbrev pub probe_of : String → ℕ × Outcome (Unit {0}) → Probe
probe_of name (took_ms, r) = record {
  name = name;
  took_ms = took_ms;
  check = then_return (λ _. ok_result name) r;
}

-- `DBProbe.check` and `RedisProbe.check` at a request.
abbrev pub check_probe : (libraries : Libraries) → ℕ → WiredProbe libraries → Probe
check_probe libraries n (db_probe engine) = probe_of "db" (libraries.select_1 n engine)
check_probe libraries n (redis_probe client) = probe_of "redis" (libraries.ping n client)
