-- ===== src/Core/Wiring/Loaded.antt =====
-- The HTTP client of app/infrastructure/http/client.py under the settings that
-- app/core/config/settings.py loads.
use ai_backend_foundation.Action.{ok}
use ai_backend_foundation.Core.Config.{Environment, Pydantic, at_least}
use ai_backend_foundation.Core.Settings.App.{AppSettings, load_settings}
use ai_backend_foundation.Core.Settings.Bounds.{load_settings-IsBounded}
use ai_backend_foundation.Core.Wiring.{http_client_settings, nat_of}
use ai_backend_foundation.Infrastructure.HttpClient.{
  Call, HttpOutcome, Httpx, Tenacity, request_json, should_retry, try_once, wrap_outcome,
}
use ai_backend_foundation.Infrastructure.HttpClient.Retries.{IsRetried, request_json-IsRetried}
use ai_backend_foundation.Prelude.{Bool, String, arith, negsuc, pos, true, ℕ, ℤ, ◌≡◌, ◌≤◌}

at_least-nat_of : (n : ℕ) (z : ℤ) → at_least n z ≡ true → n ≤ nat_of z
at_least-nat_of n (pos m) h = ground (arith, h)
at_least-nat_of n (negsuc m) h = cc

-- Under settings that load, `request_json` makes at least one attempt and no more than
-- `retry_max_attempts`, and answers with the last one. Every earlier attempt failed with an exception
-- that `should_retry` accepts, and the last returned, or failed with one that it does not accept, or
-- was the last allowed.
pub load_settings-request_json :
    (pydantic : Pydantic) (env : Environment) (settings : AppSettings) (httpx : Httpx)
    (tenacity : Tenacity) (upper : String → String) (opted_in : Bool) (call : Call httpx.Json)
    → (load_settings pydantic env).0 ≡ ok settings
    → (r : HttpOutcome httpx.Json) × ((request_json httpx tenacity upper
          (http_client_settings settings.http)
          opted_in
          call).0
        ≡ wrap_outcome call.url r)
      × IsRetried
          (nat_of settings.http.retry_max_attempts)
          (should_retry (upper call.method) opted_in)
          (try_once httpx tenacity upper (record call { method = upper call.method }))
          0
          r
          (request_json httpx tenacity upper (http_client_settings settings.http) opted_in call).1
unfolding http_client_settings
load_settings-request_json pydantic env settings httpx tenacity upper opted_in call h =
    let bounds = load_settings-IsBounded pydantic env settings h in
    request_json-IsRetried httpx tenacity upper (http_client_settings settings.http) opted_in call
      (at_least-nat_of 1 settings.http.retry_max_attempts bounds.http.attempts)
