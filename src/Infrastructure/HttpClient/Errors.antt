-- ===== src/Infrastructure/HttpClient/Errors.antt =====
-- What the callers of `request_json` in app/infrastructure/http/client.py have to catch.
use ai_backend_foundation.Infrastructure.HttpClient.{
  Call, HttpClientSettings, HttpException, HttpOutcome, Httpx, Tenacity, connect_error, failed_with,
  http_status_error, other_http_exception, read_timeout_error, request_json, returned,
  upstream_provider_failure, wrap_outcome,
}
use ai_backend_foundation.Prelude.{Bool, String, ◌≡◌}

-- Whatever the client and the body of the reply do, an exception of `request_json` is the module's own
-- `UpstreamProviderError`: none of httpx and none of the JSON decoder comes through.
pub request_json-raises :
    (httpx : Httpx) (tenacity : Tenacity) (upper : String → String) (settings : HttpClientSettings)
    (opted_in : Bool) (call : Call httpx.Json) (e : HttpException)
    → (request_json httpx tenacity upper settings opted_in call).0 ≡ failed_with e
    → (m : String) × (e ≡ upstream_provider_failure m)
unfolding request_json
request_json-raises httpx tenacity upper settings opted_in call e h = go _ h
  where
    thrown :
        (x : HttpException)
        → ◌≡◌ {A = HttpOutcome httpx.Json} (failed_with x) (failed_with e)
        → e ≡ x
    thrown x p = cc

    go :
        (r : HttpOutcome httpx.Json)
        → wrap_outcome call.url r ≡ failed_with e
        → (m : String) × (e ≡ upstream_provider_failure m)
    go (returned a) p = cc
    go (failed_with connect_error) p = (_, thrown _ p)
    go (failed_with read_timeout_error) p = (_, thrown _ p)
    go (failed_with (http_status_error s)) p = (_, thrown _ p)
    go (failed_with (upstream_provider_failure m)) p = (_, thrown _ p)
    go (failed_with (other_http_exception m)) p = (_, thrown _ p)
