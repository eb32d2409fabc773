-- ===== src/Core/Settings/Web.antt =====
-- The classes of app/core/config/settings.py for the routes, the provider of models, the blobs and
-- the traces.
use ai_backend_foundation.Action.{Action, pure, ◌>>=◌}
use ai_backend_foundation.Core.Config.{
  Environment, Pydantic, field, literal_of, optional_of, str_of, tuple_field, unbounded,
}
use ai_backend_foundation.Prelude.{Bool, List, Option, String, [], false, none, some, true, ◌∷◌}

pub record OpenAiSettings : Type 0 where
  pub api_key : String
  pub base_url : Option String
  pub chat_model : String
  pub embedding_model : String

pub record ApiSettings : Type 0 where
  pub cors_allowed_origins : List String
  pub cors_allow_credentials : Bool
  pub cors_allowed_methods : List String
  pub cors_allowed_headers : List String
  pub security_headers_enabled : Bool

pub record BlobStorageSettings : Type 0 where
  pub backend : String
  pub local_dir : String

pub record OtelSettings : Type 0 where
  pub endpoint : Option String

module _ (pydantic : Pydantic) where
  unfoldable pub load_openai : Action Environment OpenAiSettings
  load_openai = do
    api_key ← field str_of unbounded ("OPENAI_API_KEY" ∷ "openai__api_key" ∷ []) (none)
    base_url ←
        field (optional_of pydantic.url_of) unbounded ("OPENAI_BASE_URL" ∷ "openai__base_url" ∷ [])
          (some none)
    chat_model ← field str_of unbounded ("OPENAI_CHAT_MODEL" ∷ "openai__chat_model" ∷ []) (none)
    embedding_model ←
        field str_of unbounded ("OPENAI_EMBEDDING_MODEL" ∷ "openai__embedding_model" ∷ []) (none)
    pure (record {
      api_key = api_key;
      base_url = base_url;
      chat_model = chat_model;
      embedding_model = embedding_model;
    })

  unfoldable pub load_api : Action Environment ApiSettings
  load_api = do
    cors_allowed_origins ←
        tuple_field pydantic ("API_CORS_ALLOWED_ORIGINS" ∷ "api__cors_allowed_origins" ∷ [])
          (some [])
    cors_allow_credentials ←
        field pydantic.bool_of unbounded
          ("API_CORS_ALLOW_CREDENTIALS" ∷ "api__cors_allow_credentials" ∷ []) (some false)
    cors_allowed_methods ←
        tuple_field pydantic ("API_CORS_ALLOWED_METHODS" ∷ "api__cors_allowed_methods" ∷ [])
          (some ("GET" ∷ "POST" ∷ []))
    cors_allowed_headers ←
        tuple_field pydantic ("API_CORS_ALLOWED_HEADERS" ∷ "api__cors_allowed_headers" ∷ [])
          (some ("Authorization" ∷ "Content-Type" ∷ "X-Request-ID" ∷ []))
    security_headers_enabled ←
        field pydantic.bool_of unbounded
          ("API_SECURITY_HEADERS_ENABLED" ∷ "api__security_headers_enabled" ∷ []) (some true)
    pure (record {
      cors_allowed_origins = cors_allowed_origins;
      cors_allow_credentials = cors_allow_credentials;
      cors_allowed_methods = cors_allowed_methods;
      cors_allowed_headers = cors_allowed_headers;
      security_headers_enabled = security_headers_enabled;
    })

  unfoldable pub load_blob : Action Environment BlobStorageSettings
  load_blob = do
    backend ←
        field (literal_of ("local" ∷ [])) unbounded ("BLOB_STORAGE_BACKEND" ∷ "blob__backend" ∷ [])
          (some "local")
    local_dir ← field str_of unbounded ("BLOB_LOCAL_DIR" ∷ "blob__local_dir" ∷ []) (none)
    pure (record { backend = backend; local_dir = local_dir })

  unfoldable pub load_otel : Action Environment OtelSettings
  load_otel = do
    endpoint ←
        field (optional_of pydantic.url_of) unbounded
          ("OTEL_EXPORTER_OTLP_ENDPOINT" ∷ "otel__endpoint" ∷ []) (some none)
    pure (record { endpoint = endpoint })
