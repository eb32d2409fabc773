-- ===== src/Infrastructure/HttpClient/Retries.antt =====
-- How often `request_json` of app/infrastructure/http/client.py tries, and which attempt answers.
use mathlib.Core.Path.{subst}
use ai_backend_foundation.Infrastructure.HttpClient.{
  Call, HttpClientSettings, HttpException, HttpOutcome, HttpOutcome-cases, Httpx, Tenacity,
  failed_with, is_non_idempotent, request_json, returned, should_retry, try_once, wrap_outcome,
}
use ai_backend_foundation.Prelude.{
  ==_iff, Bool, Bool-cases, String, ap, arith, false, inl, inr, refl, suc, sym, true, zero, ℕ, ◌+◌,
  ◌-◌, ◌<◌, ◌==◌, ◌∙◌, ◌≡◌, ◌≤◌, ◌⊎◌,
}

-- The outcome `r` is that of the last of the attempts. Those before it failed with exceptions that `p`
-- retries, and it returned, or failed with one that `p` does not retry, or was the last of `n`.
pub record IsRetried {A : Type 0} (n : ℕ) (p : HttpException → Bool) (body : ℕ → HttpOutcome A)
    (start : ℕ) (r : HttpOutcome A) (attempts : ℕ) : Type 0 where
  pub last : ℕ
  pub from_start : start ≤ last
  pub within : last < n
  pub counted : attempts ≡ suc last
  pub answered : r ≡ body last
  pub before :
      (j : ℕ) → start ≤ j → j < last → (e : HttpException) × (body j ≡ failed_with e) × (p e ≡ true)
  pub ended :
      ((a : A) × (body last ≡ returned a))
      ⊎ ((e : HttpException) × (body last ≡ failed_with e) × ((p e ≡ false) ⊎ (attempts ≡ n)))

module _ (tenacity : Tenacity) {A : Type 0} (n : ℕ) (p : HttpException → Bool)
    (body : ℕ → HttpOutcome A) where
  abbrev Retried : ℕ → Type 0
  Retried k = IsRetried n p body k (tenacity.run n p body k).0 (tenacity.run n p body k).1

  -- An attempt that ends the loop.
  ends_here :
      (k : ℕ) (r : HttpOutcome A)
      → k < n
      → tenacity.run n p body k ≡ (r, suc k)
      → r ≡ body k
      → ((a : A) × (body k ≡ returned a))
        ⊎ ((e : HttpException) × (body k ≡ failed_with e) × ((p e ≡ false) ⊎ (suc k ≡ n)))
      → Retried k
  ends_here k r within ran same ended =
      subst (λ (x : HttpOutcome A × ℕ). IsRetried n p body k x.0 x.1) (sym ran)
        (record {
          last = k;
          from_start = omega arith;
          within = within;
          counted = refl;
          answered = same;
          before = λ j from below. absurd (omega (arith, from, below));
          ended = ended;
        })

  -- A failed attempt before an attempt that is retried in turn.
  one_before :
      (k : ℕ) (e : HttpException)
      → tenacity.run n p body k ≡ tenacity.run n p body (suc k)
      → body k ≡ failed_with e
      → p e ≡ true
      → Retried (suc k)
      → Retried k
  one_before k e same thrown retried later =
      subst (λ (x : HttpOutcome A × ℕ). IsRetried n p body k x.0 x.1) (sym same)
        (record {
          last = later.last;
          from_start = omega (arith, later.from_start);
          within = later.within;
          counted = later.counted;
          answered = later.answered;
          before = λ j from below. elim (Bool-cases (j == k)) [
            | inl here ↦ (e, ap body ((==_iff j k).0 here) ∙ thrown, retried)
            | inr other ↦ later.before j (ground (arith, from, other)) below
          ];
          ended = later.ended;
        })

  returns_here : (k : ℕ) (a : A) → k < n → body k ≡ returned a → Retried k
  returns_here k a within e =
      ends_here k (returned a) within (tenacity.stops_on_return n p body k a e) (sym e) (inl (a, e))

  -- The exception of an attempt that is not retried, or of the last attempt.
  raises_here :
      (k : ℕ) (x : HttpException)
      → k < n
      → body k ≡ failed_with x
      → (p x ≡ false) ⊎ (suc k ≡ n)
      → Retried k
  raises_here k x within e (inl fatal) =
      ends_here k (failed_with x) within (tenacity.reraises n p body k x e (inl fatal)) (sym e)
        (inr (x, e, inl fatal))
  raises_here k x within e (inr final) =
      ends_here k (failed_with x) within
        (tenacity.reraises n p body k x e (inr (omega (arith, final)))) (sym e)
        (inr (x, e, inr final))

  run-IsRetried : (left k : ℕ) → k + suc left ≡ n → Retried k
  run-IsRetried zero k total = elim (HttpOutcome-cases (body k)) [
    | inl (a, e) ↦ returns_here k a (omega (arith, total)) e
    | inr (x, e) ↦ raises_here k x (omega (arith, total)) e (inr (omega (arith, total)))
  ]
  run-IsRetried (suc left) k total = elim (HttpOutcome-cases (body k)) [
    | inl (a, e) ↦ returns_here k a (omega (arith, total)) e
    | inr (x, e) ↦ elim (Bool-cases (p x)) [
      | inl retry ↦
          one_before k x (tenacity.tries_again n p body k x e retry (omega (arith, total))) e retry
            (run-IsRetried left (suc k) (omega (arith, total)))
      | inr fatal ↦ raises_here k x (omega (arith, total)) e (inl fatal)
    ]
  ]

module _ (httpx : Httpx) (tenacity : Tenacity) (upper : String → String)
    (settings : HttpClientSettings) (opted_in : Bool) (call : Call httpx.Json) where
  abbrev retried_if : HttpException → Bool
  retried_if = should_retry (upper call.method) opted_in

  abbrev tried : ℕ → HttpOutcome httpx.Json
  tried = try_once httpx tenacity upper (record call { method = upper call.method })

  -- With at least one attempt allowed, `request_json` makes at most that many and ends: it answers with
  -- its last attempt. Every earlier attempt failed with an exception that `should_retry` accepts, and
  -- the last one returned, or failed with one that it does not accept, or was the last one allowed.
  pub request_json-IsRetried :
      1 ≤ settings.retry_max_attempts
      → (r : HttpOutcome httpx.Json) × ((request_json httpx tenacity upper settings opted_in call).0
          ≡ wrap_outcome call.url r)
        × IsRetried settings.retry_max_attempts retried_if tried 0 r
            (request_json httpx tenacity upper settings opted_in call).1
  unfolding request_json
  request_json-IsRetried some_attempt = (
    _,
    refl,
    run-IsRetried tenacity settings.retry_max_attempts retried_if tried
        (settings.retry_max_attempts - 1) 0 (omega (arith, some_attempt)),
  )

  -- With at least one attempt allowed, a POST or a PATCH that is not opted in is attempted exactly once,
  -- whatever comes of it.
  pub request_json-once :
      1 ≤ settings.retry_max_attempts
      → is_non_idempotent (upper call.method) ≡ true
      → opted_in ≡ false
      → (request_json httpx tenacity upper settings opted_in call).1 ≡ 1
  unfolding should_retry
  request_json-once some_attempt unsafe closed =
      let (r, same, run) = request_json-IsRetried some_attempt in
      elim (Bool-cases (run.last == 0)) [
        | inl first_try ↦ ground (arith, run.counted, first_try)
        | inr later ↦
            let (e, thrown, retry) = run.before 0 (omega arith) (ground (arith, later)) in
            absurd (ground (arith, retry, unsafe, closed))
      ]
