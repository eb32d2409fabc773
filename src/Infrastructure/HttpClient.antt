-- ===== src/Infrastructure/HttpClient.antt =====
-- app/infrastructure/http/client.py: `request_json`. httpx and tenacity are parameters; `upper` is
-- `str.upper` of Python. How long tenacity waits between two attempts is left out.
pub mod Retries
pub mod Errors
use Prim.Native.String.{◌++◌, slice}
use ai_backend_foundation.Prelude.{
  Bool, List, Option, String, false, if◌then◌else◌, inl, inr, ltb, not, refl, str_eq, suc, true,
  zero, ℕ, ◌%◌, ◌&&◌, ◌+◌, ◌/◌, ◌<◌, ◌||◌, ◌≡◌, ◌≤◌, ◌⊎◌,
}

-- The exceptions that the function tells apart. It shares the name of `UpstreamProviderError` with the
-- class of app/shared/errors.py, and is another class.
pub data HttpException : Type 0 where
  connect_error read_timeout_error : HttpException
  http_status_error : ℕ → HttpException
  upstream_provider_failure : String → HttpException
  other_http_exception : String → HttpException

pub data HttpOutcome (A : Type 0) : Type 0 where
  returned : A → HttpOutcome A
  failed_with : HttpException → HttpOutcome A

pub HttpOutcome-cases :
    {A : Type 0} (r : HttpOutcome A)
    → ((a : A) × (r ≡ returned a)) ⊎ ((e : HttpException) × (r ≡ failed_with e))
HttpOutcome-cases (returned a) = inl (a, refl)
HttpOutcome-cases (failed_with e) = inr (e, refl)

abbrev pub and_then : {A B : Type 0} → HttpOutcome A → (A → HttpOutcome B) → HttpOutcome B
and_then (returned a) f = f a
and_then (failed_with e) f = failed_with e

pub record HttpClientSettings : Type 0 where
  pub connect_timeout_s : ℕ
  pub read_timeout_s : ℕ
  pub total_timeout_s : ℕ
  pub retry_max_attempts : ℕ
  pub retry_backoff_factor : ℕ

pub record Timeout : Type 0 where
  pub connect : ℕ
  pub read : ℕ
  pub write : ℕ
  pub pool : ℕ

-- The timeouts that `build_http_client` gives to httpx, in one unit.
unfoldable pub build_http_client : HttpClientSettings → Timeout
build_http_client settings = record {
  connect = settings.connect_timeout_s;
  read = settings.read_timeout_s;
  write = settings.read_timeout_s;
  pool = settings.total_timeout_s;
}

-- What a call passes to the client at each attempt.
pub record Call (Json : Type 0) : Type 0 where
  pub method : String
  pub url : String
  pub headers : Option (List (String × String))
  pub json : Option Json
  pub params : Option (List (String × Json))

-- The client answers the attempts of a call one after another, the first being attempt 0.
pub record Httpx : Type 1 where
  pub Json : Type 0
  pub Reply : Type 0
  pub request : Call Json → ℕ → HttpOutcome Reply
  pub raise_for_status : Reply → HttpOutcome (Unit {0})
  pub json : Reply → HttpOutcome Json

-- `AsyncRetrying(stop=stop_after_attempt(n), retry=retry_if_exception(p), reraise=True)` around a
-- body, from the attempt `k` on: what comes out, and how many attempts were made in all.
pub record Tenacity : Type 1 where
  pub run : {A : Type 0} → ℕ → (HttpException → Bool) → (ℕ → HttpOutcome A) → ℕ → HttpOutcome A × ℕ
  pub stops_on_return :
      {A : Type 0} (n : ℕ) (p : HttpException → Bool) (body : ℕ → HttpOutcome A) (k : ℕ) (a : A)
      → body k ≡ returned a
      → run n p body k ≡ (returned a, suc k)
  pub reraises :
      {A : Type 0} (n : ℕ) (p : HttpException → Bool) (body : ℕ → HttpOutcome A) (k : ℕ)
      (e : HttpException)
      → body k ≡ failed_with e
      → (p e ≡ false) ⊎ (n ≤ suc k)
      → run n p body k ≡ (failed_with e, suc k)
  pub tries_again :
      {A : Type 0} (n : ℕ) (p : HttpException → Bool) (body : ℕ → HttpOutcome A) (k : ℕ)
      (e : HttpException)
      → body k ≡ failed_with e
      → p e ≡ true
      → suc k < n
      → run n p body k ≡ run n p body (suc k)

-- The exceptions that may pass: `isinstance(exc, (ConnectError, ReadTimeout, HTTPStatusError))`, and
-- of the statuses those from 500 on.
abbrev pub is_transient : HttpException → Bool
is_transient connect_error = true
is_transient read_timeout_error = true
is_transient (http_status_error status_code) = not (ltb status_code 500)
is_transient (upstream_provider_failure m) = false
is_transient (other_http_exception m) = false

-- `method in ("POST", "PATCH")`
abbrev pub is_non_idempotent : String → Bool
is_non_idempotent method = str_eq method "POST" || str_eq method "PATCH"

-- `should_retry`, with the upper-case method.
unfoldable pub should_retry : String → Bool → HttpException → Bool
should_retry method retry_non_idempotent e =
    is_transient e && not (is_non_idempotent method && not retry_non_idempotent)

-- The decimal digits that `str` writes of a number below `fuel`.
abbrev pub digit : ℕ → String
digit n = slice "0123456789" n (n + 1)

unfoldable pub decimal_from : ℕ → ℕ → String
decimal_from zero n = ""
decimal_from (suc fuel) n =
    let rest = decimal_from fuel (n / 10) in if ltb n 10 then digit n else rest ++ digit (n % 10)

abbrev pub decimal : ℕ → String
decimal n = decimal_from (suc n) n

-- The `except` clauses.
abbrev pub wrap_error : String → HttpException → HttpException
wrap_error url (http_status_error status_code) =
    upstream_provider_failure ((("HTTP " ++ decimal status_code) ++ " from ") ++ url)
wrap_error url connect_error = upstream_provider_failure ("Connection error to " ++ url)
wrap_error url read_timeout_error = upstream_provider_failure ("Connection error to " ++ url)
wrap_error url (upstream_provider_failure m) = upstream_provider_failure m
wrap_error url (other_http_exception m) =
    upstream_provider_failure ("Unexpected error calling " ++ url)

abbrev pub wrap_outcome : {A : Type 0} → String → HttpOutcome A → HttpOutcome A
wrap_outcome url (returned a) = returned a
wrap_outcome url (failed_with e) = failed_with (wrap_error url e)

module _ (httpx : Httpx) (tenacity : Tenacity) (upper : String → String) where
  -- The body of the loop: the request, `raise_for_status`, and the JSON.
  unfoldable pub try_once : Call httpx.Json → ℕ → HttpOutcome httpx.Json
  try_once call k =
      and_then (httpx.request call k)
        λ response. and_then (httpx.raise_for_status response) λ _. httpx.json response

  -- What `request_json` returns or raises, and the number of its attempts.
  unfoldable pub request_json :
      HttpClientSettings → Bool → Call httpx.Json → HttpOutcome httpx.Json × ℕ
  request_json settings retry_non_idempotent call =
      let method = upper call.method in
      let (r, attempts) =
        tenacity.run settings.retry_max_attempts (should_retry method retry_non_idempotent)
          (try_once (record call { method = method })) 0 in
      (wrap_outcome call.url r, attempts)
