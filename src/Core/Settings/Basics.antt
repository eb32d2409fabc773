-- ===== src/Core/Settings/Basics.antt =====
-- The classes of app/core/config/settings.py for the program itself, the databases and the tokens.
use ai_backend_foundation.Action.{Action, pure, ◌>>=◌}
use ai_backend_foundation.Core.Config.{Environment, Pydantic, field, literal_of, str_of, unbounded}
use ai_backend_foundation.Prelude.{String, [], none, pos, some, ℤ, ◌*◌, ◌∷◌}

pub record AppMeta : Type 0 where
  pub env : String
  pub service_name : String

pub record LoggingSettings : Type 0 where
  pub level : String

pub record DatabaseSettings : Type 0 where
  pub url : String

pub record RedisSettings : Type 0 where
  pub url : String
  pub arq_url : String

pub record JwtSettings : Type 0 where
  pub private_key : String
  pub public_key : String
  pub issuer : String
  pub audience : String
  pub access_ttl_seconds : ℤ
  pub refresh_ttl_seconds : ℤ

module _ (pydantic : Pydantic) where
  unfoldable pub load_app : Action Environment AppMeta
  load_app = do
    env ←
        field (literal_of ("dev" ∷ "test" ∷ "staging" ∷ "prod" ∷ [])) unbounded
          ("APP_ENV" ∷ "app__env" ∷ []) (some "dev")
    service_name ← field str_of unbounded ("app__service_name" ∷ []) (some "ai-backend-foundation")
    pure (record { env = env; service_name = service_name })

  unfoldable pub load_logging : Action Environment LoggingSettings
  load_logging = do
    level ← field str_of unbounded ("LOG_LEVEL" ∷ "logging__level" ∷ []) (some "INFO")
    pure (record { level = level })

  unfoldable pub load_db : Action Environment DatabaseSettings
  load_db = do
    url ← field pydantic.url_of unbounded ("DATABASE_URL" ∷ "db__url" ∷ []) (none)
    pure (record { url = url })

  unfoldable pub load_redis : Action Environment RedisSettings
  load_redis = do
    url ← field pydantic.url_of unbounded ("REDIS_URL" ∷ "redis__url" ∷ []) (none)
    arq_url ← field pydantic.url_of unbounded ("ARQ_REDIS_URL" ∷ "redis__arq_url" ∷ []) (none)
    pure (record { url = url; arq_url = arq_url })

  unfoldable pub load_jwt : Action Environment JwtSettings
  load_jwt = do
    private_key ← field str_of unbounded ("JWT_PRIVATE_KEY" ∷ "jwt__private_key" ∷ []) (none)
    public_key ← field str_of unbounded ("JWT_PUBLIC_KEY" ∷ "jwt__public_key" ∷ []) (none)
    issuer ← field str_of unbounded ("JWT_ISSUER" ∷ "jwt__issuer" ∷ []) (none)
    audience ← field str_of unbounded ("JWT_AUDIENCE" ∷ "jwt__audience" ∷ []) (none)
    access_ttl_seconds ←
        field pydantic.int_of unbounded ("jwt__access_ttl_seconds" ∷ []) (some (pos 900))
    refresh_ttl_seconds ←
        field pydantic.int_of unbounded ("jwt__refresh_ttl_seconds" ∷ [])
          (some (pos (60 * 60 * 24 * 14)))
    pure (record {
      private_key = private_key;
      public_key = public_key;
      issuer = issuer;
      audience = audience;
      access_ttl_seconds = access_ttl_seconds;
      refresh_ttl_seconds = refresh_ttl_seconds;
    })
