-- ===== src/Infrastructure/RateLimit/Quota.antt =====
-- What the token bucket lets through in a burst.
use ai_backend_foundation.Infrastructure.RateLimit.{
  Bucket, LuaNumbers, RateLimitDecision, allow, decide, decisions, exact, refilled, time_of,
}
use ai_backend_foundation.Prelude.{
  Bool-cases, List, Option, [], ap, arith, false, inl, inr, leb, none, refl, some, suc, true, zero,
  ℕ, ◌*◌, ◌+◌, ◌∙◌, ◌∷◌, ◌≡◌, ◌≤◌,
}
use ai_backend_foundation.Shared.Types.{DateTime, microseconds}

-- Each time is at most the one before: the clock stands still or is set back.
abbrev pub StandsStill : DateTime → List DateTime → Type 0
StandsStill last [] = Unit
StandsStill last (t ∷ times) = (t ≤ last) × StandsStill t times

abbrev pub allowed_call : ℕ → ℕ → RateLimitDecision
allowed_call window_s k = record { allowed = true; remaining = k; reset_after_s = window_s }

abbrev pub refused_call : ℕ → RateLimitDecision
refused_call window_s = record { allowed = false; remaining = 0; reset_after_s = window_s }

-- With `k` tokens left and none to come: `k` calls are allowed and told how many are left, and those
-- after them are refused.
abbrev pub countdown : ℕ → ℕ → List DateTime → List RateLimitDecision
countdown window_s k [] = []
countdown window_s zero (t ∷ times) = refused_call window_s ∷ countdown window_s zero times
countdown window_s (suc k) (t ∷ times) = allowed_call window_s k ∷ countdown window_s k times

module _ (lua : LuaNumbers) (quota window_s : ℕ) (whole : quota ≤ exact) (window : 1 ≤ window_s)
    (short : window_s ≤ exact) where
  -- The bucket that a call at the time `t` leaves with `k` tokens.
  abbrev left : DateTime → ℕ → Bucket lua
  left t k = record {
    tokens = lua.of_nat k;
    ts = time_of lua t;
    expires_at = t + window_s * microseconds;
  }

  -- No time passed, so nothing is added.
  refilled-left :
      (last t : DateTime) (k : ℕ)
      → t ≤ last
      → last ≤ exact
      → k ≤ quota
      → refilled lua quota window_s (time_of lua t) (some (left last k)) ≡ lua.of_nat k
  refilled-left last t k still soon fits =
      let passed = lua.earlier t last still soon in
      let kept = lua.add_zero k (omega (arith, whole, fits)) in
      let compared = lua.le_whole quota k whole (omega (arith, whole, fits)) in
      rw (passed, lua.mul_zero quota window_s whole window short, kept, compared)
        (elim (Bool-cases (leb quota k)) [
          | inl full ↦
              let same : quota ≡ k = ground (arith, full, fits) in
              rw full (ap (λ n. lua.of_nat n) same)
          | inr less ↦ rw less refl
        ])

  -- A call that finds `k` tokens.
  decide-zero :
      (t : DateTime)
      → decide lua quota window_s t (lua.of_nat 0) ≡ (refused_call window_s, some (left t 0))
  decide-zero t =
      rw (lua.le_whole 1 0 (omega arith) (omega arith), lua.floor_whole 0 (omega arith)) refl

  decide-suc :
      (t : DateTime) (k : ℕ)
      → suc k ≤ quota
      → decide lua quota window_s t (lua.of_nat (suc k))
        ≡ (allowed_call window_s k, some (left t k))
  decide-suc t k fits =
      let enough : leb 1 (suc k) ≡ true = ground arith in
      rw
        (
          lua.le_whole 1 (suc k) (omega arith) (omega (arith, whole, fits)) ∙ enough,
          lua.sub_whole k (omega (arith, whole, fits)),
          lua.floor_whole k (omega (arith, whole, fits)),
        )
        refl

  -- The entry has not expired.
  allow-left :
      (last t : DateTime) (k : ℕ)
      → t ≤ last
      → last ≤ exact
      → k ≤ quota
      → allow lua quota window_s t (some (left last k)) ≡ decide lua quota window_s t (lua.of_nat k)
  unfolding allow
  allow-left last t k still soon fits =
      let kept : leb (last + window_s * microseconds) t ≡ false = ground (arith, still, window) in
      rw kept (ap (decide lua quota window_s t) (refilled-left last t k still soon fits))

  -- A call that finds `k` tokens, and the calls after it.
  decisions-from :
      (t : DateTime) (times : List DateTime) (k : ℕ) (bucket : Option (Bucket lua))
      → k ≤ quota
      → allow lua quota window_s t bucket ≡ decide lua quota window_s t (lua.of_nat k)
      → ((j : ℕ)
          → j ≤ quota
          → decisions lua quota window_s times (some (left t j)) ≡ countdown window_s j times)
      → decisions lua quota window_s (t ∷ times) bucket ≡ countdown window_s k (t ∷ times)
  unfolding decisions
  decisions-from t times zero bucket fits found later =
      rw (found ∙ decide-zero t) (ap (λ ds. refused_call window_s ∷ ds) (later zero fits))
  decisions-from t times (suc k) bucket fits found later =
      rw (found ∙ decide-suc t k fits)
        (ap (λ ds. allowed_call window_s k ∷ ds) (later k (omega (arith, fits))))

  decisions-left :
      (times : List DateTime) (last : DateTime)
      → StandsStill last times
      → last ≤ exact
      → (k : ℕ) → k ≤ quota
      → decisions lua quota window_s times (some (left last k)) ≡ countdown window_s k times
  unfolding decisions
  decisions-left [] last h soon k fits = refl
  decisions-left (t ∷ times) last (still, h) soon k fits =
      decisions-from t times k _ fits (allow-left last t k still soon fits)
        (decisions-left times t h (omega (arith, still, soon)))

  -- In the arithmetic of doubles, of a burst of calls on a key that is new, during which the clock of
  -- Redis stands still or is set back, exactly the first `quota` are allowed; each is told how many are
  -- left, and every later one is refused. The window is not 0, and the quota, the window in seconds and
  -- the time in microseconds are at most 2 ^ 53.
  pub decisions-countdown :
      (t : DateTime) (times : List DateTime)
      → StandsStill t times
      → t ≤ exact
      → decisions lua quota window_s (t ∷ times) none ≡ countdown window_s quota (t ∷ times)
  unfolding allow
  decisions-countdown t times still soon =
      decisions-from t times quota none (omega arith) refl (decisions-left times t still soon)
