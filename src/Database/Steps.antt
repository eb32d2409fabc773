-- ===== src/Database/Steps.antt =====
-- Rules to run an action from a state whose tables and whose count of answers are known. With `⊥`
-- for every exception such a rule shows that the action returns.
use mathlib.Core.Path.{subst}
use ai_backend_foundation.Action.{Action, ok, pure, raise, raise_if, ◌>>=◌}
use ai_backend_foundation.Action.Rules.{Ensures}
use ai_backend_foundation.Database.{Database, World, ask, commit, log_event, replacement_exists}
use ai_backend_foundation.Prelude.{
  Bool, Bool-cases, String, [], all, false, if◌then◌else◌, inl, inr, refl, suc, sym, true, ℕ, ◌++◌,
  ◌∷◌, ◌≡◌,
}
use ai_backend_foundation.Shared.Errors.{Exception, integrity_error}

-- The committed tables are `c`, the session sees `d`, and `n` questions have been asked.
abbrev pub At : Database → Database → ℕ → World → Type 0
At c d n w = (w.committed ≡ c) × (w.db ≡ d) × (w.asked ≡ n)

-- The replacements of the tokens exist, as the deferred foreign key wants.
abbrev pub Replaced : Database → Type 0
Replaced d = all (replacement_exists d.refresh_tokens) d.refresh_tokens ≡ true

module _ {A B : Type 0} {c d : Database} {n : ℕ} (Q : B → World → Type 0)
    (E : Exception → World → Type 0) where
  pub ask_step :
      (g : ℕ → A) (f : A → Action World B)
      → Ensures (At c d (suc n)) (f (g n)) Q E
      → Ensures (At c d n) (ask g >>= f) Q E
  unfolding ask ◌>>=◌
  ask_step g f k = record {
    at = λ w h. rw h.2 (k.at (record w { asked = suc n }) (h.0, h.1, refl));
  }

  pub pure_step :
      (a : A) (f : A → Action World B)
      → Ensures (At c d n) (f a) Q E
      → Ensures (At c d n) (pure a >>= f) Q E
  unfolding pure ◌>>=◌
  pure_step a f k = record { at = λ w h. k.at w h }

module _ {B : Type 0} {c d : Database} {n : ℕ} (Q : B → World → Type 0)
    (E : Exception → World → Type 0) (f : Unit {0} → Action World B) where
  pub log_event_step :
      (event : String)
      → Ensures (At c d n) (f tt) Q E
      → Ensures (At c d n) (log_event event >>= f) Q E
  unfolding log_event ◌>>=◌
  log_event_step event k = record { at = λ w h. k.at (record w { log = w.log ++ event ∷ [] }) h }

  -- The raise is allowed, or the test is known to fail.
  pub raise_if_step :
      (b : Bool) (e : Exception)
      → (b ≡ true → (w : World) → At c d n w → E e w)
      → (b ≡ false → Ensures (At c d n) (f tt) Q E)
      → Ensures (At c d n) (raise_if b e >>= f) Q E
  unfolding raise_if ◌>>=◌
  raise_if_step true e stop go = record { at = λ w h. stop refl w h }
  raise_if_step false e stop go = record { at = λ w h. (go refl).at w h }

  pub commit_step :
      Replaced d → Ensures (At d d n) (f tt) Q E → Ensures (At c d n) (commit >>= f) Q E
  unfolding commit ◌>>=◌
  commit_step exists k = record {
    at = λ w h.
        rw (subst Replaced (sym h.1) exists, if◌then◌else◌)
          (k.at (record w { committed = w.db }) (h.1, h.1, h.2));
  }

module _ {A : Type 0} {c d : Database} {n : ℕ} (Q : A → World → Type 0)
    (E : Exception → World → Type 0) where
  pub returns : (a : A) → ((w : World) → At c d n w → Q a w) → Ensures (At c d n) (pure a) Q E
  unfolding pure
  returns a q = record { at = λ w h. q w h }

  pub raises :
      (e : Exception) → ((w : World) → At c d n w → E e w) → Ensures (At c d n) (raise e) Q E
  unfolding raise
  raises e q = record { at = λ w h. q w h }

-- A step that is known to return `a` on the given tables, and what it leaves.
abbrev pub Gives :
    {A : Type 0} → Action World A → Database → Database → ℕ → A → Database → Database → ℕ → Type 0
Gives m c d n a c' d' n' =
    (w : World) → At c d n w → (w' : World) × (m w ≡ (ok a, w')) × At c' d' n' w'

pub run_step :
    {A B : Type 0} {c d c' d' : Database} {n n' : ℕ} {a : A} (Q : B → World → Type 0)
    (E : Exception → World → Type 0) (m : Action World A) (f : A → Action World B)
    → Gives m c d n a c' d' n'
    → Ensures (At c' d' n') (f a) Q E
    → Ensures (At c d n) (m >>= f) Q E
unfolding ◌>>=◌
run_step Q E m f g k = record { at = λ w h. let (w', e, h') = g w h in rw e (k.at w' h') }

-- A commit that the deferred constraint refuses leaves the committed tables alone.
pub commit_try :
    {B : Type 0} {c d : Database} {n : ℕ} (Q : B → World → Type 0) (E : Exception → World → Type 0)
    (f : Unit {0} → Action World B)
    → (¬ Replaced d → (e : Exception) (w : World) → w.committed ≡ c → E e w)
    → (Replaced d → Ensures (At d d n) (f tt) Q E)
    → Ensures (At c d n) (commit >>= f) Q E
unfolding commit ◌>>=◌
commit_try {c} {d} {n} Q E f stop go = record {
  at = λ w h. elim (Bool-cases (all (replacement_exists w.db.refresh_tokens) w.db.refresh_tokens)) [
    | inl exists ↦
        rw (exists, if◌then◌else◌)
          ((go (subst Replaced h.1 exists)).at (record w { committed = w.db }) (h.1, h.1, h.2))
    | inr missing ↦
        rw (missing, if◌then◌else◌)
          (stop (λ r. cc (missing, subst Replaced (sym h.1) r)) integrity_error
            (record w { db = w.committed }) h.0)
  ];
}
