-- ===== src/Tests/HttpClient.antt =====
-- Tests of app/infrastructure/http/client.py.
use mathlib.Core.Path.{subst}
use ai_backend_foundation.Infrastructure.HttpClient.{
  Call, HttpClientSettings, HttpException, HttpOutcome, Httpx, Tenacity, connect_error,
  decimal_from, failed_with, http_status_error, request_json, returned, should_retry, try_once,
  upstream_provider_failure, wrap_outcome,
}
use ai_backend_foundation.Infrastructure.HttpClient.Errors.{request_json-raises}
use ai_backend_foundation.Infrastructure.HttpClient.Retries.{
  IsRetried, request_json-IsRetried, request_json-once,
}
use ai_backend_foundation.Prelude.{
  Bool, String, arith, false, if◌then◌else◌, inl, inr, leb, none, refl, suc, sym, true, zero, ℕ,
  ◌-◌, ◌≡◌, ◌≤◌, ◌⊎◌,
}

module _ {A : Type 0} (p : HttpException → Bool) (body : ℕ → HttpOutcome A) where
  abbrev pub attempt_or : HttpOutcome A → ℕ → HttpOutcome A × ℕ → HttpOutcome A × ℕ
  attempt_or (returned a) k later = (returned a, suc k)
  attempt_or (failed_with e) k later = if p e then later else (failed_with e, suc k)

  abbrev pub loop_with : ℕ → ℕ → HttpOutcome A × ℕ
  loop_with zero k = (body k, suc k)
  loop_with (suc left) k = attempt_or (body k) k (loop_with left (suc k))

  pub loop_with-returned :
      (left k : ℕ) (a : A) → body k ≡ returned a → loop_with left k ≡ (returned a, suc k)
  loop_with-returned zero k a e = rw e refl
  loop_with-returned (suc left) k a e = rw e refl

  pub loop_with-failed :
      (left k : ℕ) (e : HttpException)
      → body k ≡ failed_with e
      → (p e ≡ false) ⊎ (left ≡ 0)
      → loop_with left k ≡ (failed_with e, suc k)
  loop_with-failed zero k e h why = rw h refl
  loop_with-failed (suc left) k e h (inl fatal) = rw (h, fatal) refl
  loop_with-failed (suc left) k e h (inr final) = absurd (omega (arith, final))

  pub loop_with-again :
      (left left' k : ℕ) (e : HttpException)
      → left ≡ suc left'
      → body k ≡ failed_with e
      → p e ≡ true
      → loop_with left k ≡ loop_with left' (suc k)
  loop_with-again left left' k e enough h retry =
      subst (λ l. loop_with l k ≡ loop_with left' (suc k)) (sym enough) (rw (h, retry) refl)

pub looping_why : (n k : ℕ) (b : Bool) → (b ≡ false) ⊎ (n ≤ suc k) → (b ≡ false) ⊎ (n - suc k ≡ 0)
looping_why n k b (inl fatal) = inl fatal
looping_why n k b (inr final) = inr (omega (arith, final))

abbrev pub looping : Tenacity
looping = record {
  run = λ n p body k. loop_with p body (n - suc k) k;
  stops_on_return = λ n p body k a e. loop_with-returned p body (n - suc k) k a e;
  reraises =
      λ n p body k e h why. loop_with-failed p body (n - suc k) k e h (looping_why n k (p e) why);
  tries_again = λ n p body k e h retry more.
      loop_with-again p body (n - suc k) (n - suc (suc k)) k e (omega (arith, more)) h retry;
}

-- A server that is down twice and then answers with 7.
abbrev pub answers : Call ℕ → ℕ → HttpOutcome ℕ
answers call zero = failed_with connect_error
answers call (suc zero) = returned 503
answers call (suc (suc k)) = returned 7

abbrev pub flaky : Httpx
flaky = record {
  Json = ℕ;
  Reply = ℕ;
  request = answers;
  raise_for_status =
      λ reply. if leb 500 reply then failed_with (http_status_error reply) else returned tt;
  json = λ reply. returned reply;
}

abbrev defaults : HttpClientSettings
defaults = record {
  connect_timeout_s = 5;
  read_timeout_s = 30;
  total_timeout_s = 60;
  retry_max_attempts = 3;
  retry_backoff_factor = 1;
}

abbrev pub a_call : String → Call ℕ
a_call method = record {
  method = method;
  url = "http://x";
  headers = none;
  json = none;
  params = none;
}

get_thrice : request_json flaky looping (λ s. s) defaults false (a_call "GET") ≡ (returned 7, 3)
unfolding request_json should_retry try_once
get_thrice = refl

unavailable :
    (request_json flaky looping
      (λ s. s)
      (record defaults { retry_max_attempts = 2 })
      false
      (a_call "GET")).0
    ≡ failed_with (upstream_provider_failure "HTTP 503 from http://x")
unfolding request_json should_retry try_once decimal_from
unavailable = refl

request_json-IsRetried_example :
    (r : HttpOutcome ℕ) × ((request_json flaky looping (λ s. s) defaults false (a_call "GET")).0
      ≡ wrap_outcome "http://x" r)
    × IsRetried 3
        (should_retry "GET" false)
        (try_once flaky looping (λ s. s) (a_call "GET"))
        0
        r
        (request_json flaky looping (λ s. s) defaults false (a_call "GET")).1
request_json-IsRetried_example =
    request_json-IsRetried flaky looping (λ s. s) defaults false (a_call "GET") (omega arith)

request_json-once_example :
    (request_json flaky looping (λ s. s) defaults false (a_call "POST")).1 ≡ 1
request_json-once_example =
    request_json-once flaky looping (λ s. s) defaults false (a_call "POST") (omega arith) refl refl

request_json-raises_example :
    (m : String) × (upstream_provider_failure "Connection error to http://x"
      ≡ upstream_provider_failure m)
unfolding request_json should_retry try_once
request_json-raises_example =
    request_json-raises flaky looping (λ s. s) defaults false (a_call "POST")
      (upstream_provider_failure "Connection error to http://x") refl
