-- ===== src/Tests/Core.antt =====
-- Tests of app/core, in an environment that has what is required and two lists.
use ai_backend_foundation.Action.{ok, pure, raised, ◌>>=◌}
use ai_backend_foundation.Core.Config.{
  Environment, Pydantic, RawValue, field, parse_csv_tuple, str_of, str_value, tuple_field,
  tuple_value,
}
use ai_backend_foundation.Core.Config.Csv.{IsEntry, tuple_field-join_csv}
use ai_backend_foundation.Core.Settings.App.{AppSettings, load_settings}
use ai_backend_foundation.Core.Settings.Basics.{
  load_app, load_db, load_jwt, load_logging, load_redis,
}
use ai_backend_foundation.Core.Settings.Bounds.{IsBounded, load_settings-IsBounded}
use ai_backend_foundation.Core.Settings.Limits.{load_argon2, load_arq, load_governance, load_http}
use ai_backend_foundation.Core.Settings.Web.{load_api, load_blob, load_openai, load_otel}
use ai_backend_foundation.Main.Responses.{whole}
use ai_backend_foundation.Prelude.{
  Bool, List, Option, String, [], false, has_code, if◌then◌else◌, is_empty, none, pos, refl, some,
  str_eq, true, ℤ, ◌∷◌, ◌≡◌,
}
use ai_backend_foundation.Shared.Errors.{value_error}

abbrev int_of_raw : RawValue → Option ℤ
int_of_raw (str_value s) =
    if str_eq s "0" then some (pos 0) else if str_eq s "5" then some (pos 5) else none
int_of_raw _ = none

abbrev bool_of_raw : RawValue → Option Bool
bool_of_raw (str_value s) = some (str_eq s "true")
bool_of_raw _ = none

abbrev tuple_of_raw : RawValue → Option (List String)
tuple_of_raw (tuple_value entries) = some entries
tuple_of_raw _ = none

-- No text of these tests has a space at an end.
abbrev pub a_pydantic : Pydantic
a_pydantic = record {
  strip = λ s. s;
  int_of = int_of_raw;
  float_of = int_of_raw;
  decimal_of = int_of_raw;
  bool_of = bool_of_raw;
  url_of = str_of;
  tuple_of = tuple_of_raw;
  strip_empty = refl;
  strip_idempotent = λ s. refl;
  tuple_kept = λ entries. refl;
}

abbrev from_table : List (String × String) → List String → Option RawValue
from_table [] aliases = none
from_table (entry ∷ table) [] = none
from_table ((name, v) ∷ table) (alias ∷ aliases) =
    let rest = from_table table (alias ∷ aliases) in
    if str_eq name alias then some (str_value v) else rest

abbrev required : List (String × String)
required =
    ("DATABASE_URL", "postgresql://db")
    ∷ ("REDIS_URL", "redis://r")
    ∷ ("ARQ_REDIS_URL", "redis://q")
    ∷ ("JWT_PRIVATE_KEY", "private")
    ∷ ("JWT_PUBLIC_KEY", "public")
    ∷ ("JWT_ISSUER", "backend")
    ∷ ("JWT_AUDIENCE", "clients")
    ∷ ("OPENAI_API_KEY", "k")
    ∷ ("OPENAI_CHAT_MODEL", "m")
    ∷ ("OPENAI_EMBEDDING_MODEL", "e")
    ∷ ("BLOB_LOCAL_DIR", "/blobs")
    ∷ ("LLM_MONTHLY_BUDGET_USD", "5")
    ∷ ("LLM_MODEL_ALLOWLIST", "m,e")
    ∷ []

abbrev pub an_environment : Environment
an_environment = from_table required

abbrev no_attempts : Environment
no_attempts = from_table (("HTTP_RETRY_MAX_ATTEMPTS", "0") ∷ required)

abbrev pub the_settings : AppSettings
the_settings = record {
  app_meta = record { env = "dev"; service_name = "ai-backend-foundation" };
  logging = record { level = "INFO" };
  db = record { url = "postgresql://db" };
  redis = record { url = "redis://r"; arq_url = "redis://q" };
  jwt = record {
    private_key = "private";
    public_key = "public";
    issuer = "backend";
    audience = "clients";
    access_ttl_seconds = pos 900;
    refresh_ttl_seconds = pos 1209600;
  };
  openai = record { api_key = "k"; base_url = none; chat_model = "m"; embedding_model = "e" };
  blob = record { backend = "local"; local_dir = "/blobs" };
  otel = record { endpoint = none };
  governance = record {
    monthly_budget_usd = pos 5;
    warning_threshold = pos 800000;
    model_allowlist = "m" ∷ "e" ∷ [];
  };
  argon2 = record {
    time_cost = pos 2;
    memory_cost = pos 19456;
    parallelism = pos 1;
    hash_len = pos 32;
    salt_len = pos 16;
  };
  http = record {
    connect_timeout_s = pos 5000000;
    read_timeout_s = pos 30000000;
    total_timeout_s = pos 60000000;
    retry_max_attempts = pos 3;
    retry_backoff_factor = pos 500000;
  };
  arq = record {
    queue_name = "default";
    max_jobs = pos 10;
    job_timeout_s = pos 300;
    keep_result_s = pos 3600;
  };
  api = record {
    cors_allowed_origins = [];
    cors_allow_credentials = false;
    cors_allowed_methods = "GET" ∷ "POST" ∷ [];
    cors_allowed_headers = "Authorization" ∷ "Content-Type" ∷ "X-Request-ID" ∷ [];
    security_headers_enabled = true;
  };
}

pub loaded : (load_settings a_pydantic an_environment).0 ≡ ok the_settings
unfolding load_settings load_app load_logging load_db load_redis load_jwt load_openai load_blob
    load_otel load_governance load_argon2 load_http load_arq load_api field tuple_field
    parse_csv_tuple ◌>>=◌ pure
loaded = refl

not_loaded :
    (load_http a_pydantic no_attempts).0 ≡ raised (value_error "Input should be in other bounds")
unfolding load_http field ◌>>=◌ pure
not_loaded = refl

load_settings-IsBounded_example : IsBounded the_settings
load_settings-IsBounded_example =
    load_settings-IsBounded a_pydantic an_environment the_settings loaded

is_entry : (s : String) → is_empty s ≡ false → has_code b',' s ≡ false → IsEntry (λ s. s) s
is_entry s filled whole = record { is_stripped = refl; not_empty = filled; no_comma = whole }

tuple_field-join_csv_example :
    tuple_field a_pydantic ("LLM_MODEL_ALLOWLIST" ∷ []) none an_environment
    ≡ (ok ("m" ∷ "e" ∷ []), an_environment)
tuple_field-join_csv_example =
    tuple_field-join_csv a_pydantic an_environment ("LLM_MODEL_ALLOWLIST" ∷ []) none
      ("m" ∷ "e" ∷ []) (is_entry "m" refl refl, (is_entry "e" refl refl, tt)) refl
