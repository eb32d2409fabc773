-- ===== src/Core/Settings/App.antt =====
-- `AppSettings` and `get_settings` of app/core/config/settings.py. Every part is read from the
-- environment by its own class.
use ai_backend_foundation.Action.{Action, Outcome, ok, pure, raised, ◌>>=◌}
use ai_backend_foundation.Core.Config.{Environment, Pydantic}
use ai_backend_foundation.Core.Settings.Basics.{
  AppMeta, DatabaseSettings, JwtSettings, LoggingSettings, RedisSettings, load_app, load_db,
  load_jwt, load_logging, load_redis,
}
use ai_backend_foundation.Core.Settings.Limits.{
  Argon2Settings, ArqSettings, GovernanceSettings, HttpSettings, load_argon2, load_arq,
  load_governance, load_http,
}
use ai_backend_foundation.Core.Settings.Web.{
  ApiSettings, BlobStorageSettings, OpenAiSettings, OtelSettings, load_api, load_blob, load_openai,
  load_otel,
}
use ai_backend_foundation.Prelude.{Option, none, some}

pub record AppSettings : Type 0 where
  pub app_meta : AppMeta
  pub logging : LoggingSettings
  pub db : DatabaseSettings
  pub redis : RedisSettings
  pub jwt : JwtSettings
  pub openai : OpenAiSettings
  pub blob : BlobStorageSettings
  pub otel : OtelSettings
  pub governance : GovernanceSettings
  pub argon2 : Argon2Settings
  pub http : HttpSettings
  pub arq : ArqSettings
  pub api : ApiSettings

-- The environment of the process, and what `lru_cache(maxsize=1)` holds.
pub record SettingsState : Type 0 where
  pub environment : Environment
  pub cached : Option AppSettings

module _ (pydantic : Pydantic) where
  unfoldable pub load_settings : Action Environment AppSettings
  load_settings = do
    app_meta ← load_app pydantic
    logging ← load_logging pydantic
    db ← load_db pydantic
    redis ← load_redis pydantic
    jwt ← load_jwt pydantic
    openai ← load_openai pydantic
    blob ← load_blob pydantic
    otel ← load_otel pydantic
    governance ← load_governance pydantic
    argon2 ← load_argon2 pydantic
    http ← load_http pydantic
    arq ← load_arq pydantic
    api ← load_api pydantic
    pure (record {
      app_meta = app_meta;
      logging = logging;
      db = db;
      redis = redis;
      jwt = jwt;
      openai = openai;
      blob = blob;
      otel = otel;
      governance = governance;
      argon2 = argon2;
      http = http;
      arq = arq;
      api = api;
    })

  abbrev pub remember : Outcome AppSettings → SettingsState → SettingsState
  remember (ok settings) s = record s { cached = some settings }
  remember (raised e) s = s

  abbrev pub settings_or_load : Option AppSettings → Action SettingsState AppSettings
  settings_or_load (some settings) s = (ok settings, s)
  settings_or_load none s = let r = (load_settings s.environment).0 in (r, remember r s)

  -- An exception is not cached.
  unfoldable pub get_settings : Action SettingsState AppSettings
  get_settings s = settings_or_load s.cached s
