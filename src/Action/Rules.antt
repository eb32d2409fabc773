-- ===== src/Action/Rules.antt =====
-- Rules for what actions keep and ensure, one for each way to build an action.
use mathlib.Core.Path.{subst}
use ai_backend_foundation.Action.{
  Action, Outcome, continue, gets, lift, ok, pure, raise, raise_if, raised, ◌>>=◌,
}
use ai_backend_foundation.Prelude.{Bool, false, if◌then◌else◌, refl, sym, true, ◌≡◌}
use ai_backend_foundation.Shared.Errors.{Exception}

-- Whether `m` returns or raises, `P` holds afterwards if it held before.
pub record Keeps {ℓ} {S A : Type ℓ} (P : S → Type ℓ) (m : Action S A) : Type ℓ where
  pub at : (s : S) → P s → P (m s).1

-- A postcondition of the results, and one of the exceptions.
abbrev pub Post {ℓ} :
    {A S : Type ℓ} → (A → S → Type ℓ) → (Exception → S → Type ℓ) → Outcome A → S → Type ℓ
Post Q E (ok a) s = Q a s
Post Q E (raised e) s = E e s

pub ok-injective {ℓ} : {A : Type ℓ} {a b : A} → ok a ≡ ok b → a ≡ b
ok-injective h = cc

-- From a state with `P`, a result `a` of `m` comes with `Q a` and an exception `e` with `E e`.
pub record Ensures {ℓ} {S A : Type ℓ} (P : S → Type ℓ) (m : Action S A) (Q : A → S → Type ℓ)
    (E : Exception → S → Type ℓ) : Type ℓ where
  pub at : (s : S) → P s → Post Q E (m s).0 (m s).1

module _ {ℓ} {S A : Type ℓ} {P : S → Type ℓ} where
  pub Keeps-gets : (f : S → A) → Keeps P (gets f)
  unfolding gets
  Keeps-gets f = record { at = λ state kept. kept }

  pub Keeps-raise : (e : Exception) → Keeps P (raise {A = A} e)
  unfolding raise
  Keeps-raise e = record { at = λ state kept. kept }

  pub Keeps-pure : (a : A) → Keeps P (pure a)
  unfolding pure
  Keeps-pure a = record { at = λ state kept. kept }

  pub Keeps-lift : (r : Outcome A) → Keeps P (lift r)
  unfolding lift
  Keeps-lift r = record { at = λ state kept. kept }

  pub Keeps-if :
      (b : Bool) {m n : Action S A} → Keeps P m → Keeps P n → Keeps P (if b then m else n)
  Keeps-if true km kn = km
  Keeps-if false km kn = kn

module _ {ℓ} {S : Type ℓ} {P : S → Type ℓ} where
  pub Keeps-raise_if : (b : Bool) (e : Exception) → Keeps P (raise_if b e)
  unfolding raise_if
  Keeps-raise_if true e = record { at = λ s h. h }
  Keeps-raise_if false e = record { at = λ s h. h }

module _ {ℓ} {S A B : Type ℓ} {P : S → Type ℓ} where
  Keeps-continue :
      (r : Outcome A) (f : A → Action S B)
      → ((a : A) → Keeps P (f a))
      → (s : S) → P s
      → P (continue r f s).1
  Keeps-continue (ok a) f kf s h = (kf a).at s h
  Keeps-continue (raised e) f kf s h = h

  pub Keeps-bind :
      (step : Action S A) (rest : A → Action S B)
      → Keeps P step
      → ((result : A) → Keeps P (rest result))
      → Keeps P (step >>= rest)
  unfolding ◌>>=◌
  Keeps-bind step rest keeps_step keeps_rest = record {
    at = λ state kept.
        let (outcome, after) = step state in
        Keeps-continue outcome rest keeps_rest after (keeps_step.at state kept);
  }

pub ruleset keeps_rules =
    (Keeps-pure, Keeps-raise, Keeps-lift, Keeps-gets, Keeps-if, Keeps-raise_if, Keeps-bind)

module _ {ℓ} {S A B : Type ℓ} {R : A → S → Type ℓ} {Q : B → S → Type ℓ} {E : Exception → S → Type ℓ}
    (f : A → Action S B) (kf : (a : A) → Ensures (R a) (f a) Q E) where
  Ensures-continue :
      (r : Outcome A) (s : S) → Post R E r s → Post Q E (continue r f s).0 (continue r f s).1
  Ensures-continue (ok a) s h = (kf a).at s h
  Ensures-continue (raised e) s h = h

  pub Ensures-bind : {P : S → Type ℓ} (m : Action S A) → Ensures P m R E → Ensures P (m >>= f) Q E
  unfolding ◌>>=◌
  Ensures-bind m km = record { at = λ s h. let (r, s') = m s in Ensures-continue r s' (km.at s h) }

module _ {ℓ} {S A : Type ℓ} (Q : A → S → Type ℓ) (E : Exception → S → Type ℓ) where
  Post-intro :
      (r : Outcome A) (s : S) → ((a : A) → Q a s) → ((e : Exception) → E e s) → Post Q E r s
  Post-intro (ok a) s q e = q a
  Post-intro (raised x) s q e = e x

  -- What keeps `P` ensures whatever follows from `P`.
  pub Ensures_of_Keeps :
      {P : S → Type ℓ} (m : Action S A)
      → Keeps P m
      → ((a : A) (s : S) → P s → Q a s)
      → ((e : Exception) (s : S) → P s → E e s)
      → Ensures P m Q E
  Ensures_of_Keeps m k q e = record {
    at = λ s h.
        let (r, s') = m s in Post-intro r s' (λ a. q a s' (k.at s h)) (λ x. e x s' (k.at s h));
  }

module _ {ℓ} {S A : Type ℓ} (Q : A → S → Type ℓ) (E : Exception → S → Type ℓ) where
  raised_eq : (x y : Exception) → ◌≡◌ {A = Outcome A} (raised x) (raised y) → x ≡ y
  raised_eq x y h = cc

  pub Post-raised : (r : Outcome A) (s : S) {e : Exception} → Post Q E r s → r ≡ raised e → E e s
  Post-raised (ok a) s h q = cc
  Post-raised (raised x) s h q = subst (λ y. E y s) (raised_eq x _ q) h

  pub Post-ok : (r : Outcome A) (s : S) {a : A} → Post Q E r s → r ≡ ok a → Q a s
  Post-ok (ok b) s h q = subst (λ y. Q y s) (ok-injective q) h
  Post-ok (raised x) s h q = cc

module _ {ℓ} {S A B : Type ℓ} {P R : S → Type ℓ} (Q : B → S → Type ℓ)
    (E : Exception → S → Type ℓ) where
  -- A step that returns a known value.
  pub known_step :
      (m : Action S A) (f : A → Action S B) (a : A)
      → Ensures P m (λ x s. (x ≡ a) × R s) E
      → Ensures R (f a) Q E
      → Ensures P (m >>= f) Q E
  known_step m f a km k =
      Ensures-bind f
        (λ x. record { at = λ s h. (subst (λ y. Ensures R (f y) Q E) (sym h.0) k).at s h.1 }) m km

module _ {S A : Type 0} (Q : A → S → Type 0) (E : Exception → S → Type 0) where
  Post-total : (r : Outcome A) (s : S) → Post Q (λ e s. ⊥) r s → Post Q E r s
  Post-total (ok a) s h = h
  Post-total (raised e) s h = absurd h

  -- What never raises ensures anything of its exceptions.
  pub raises_nothing :
      {P : S → Type 0} {m : Action S A} → Ensures P m Q (λ e s. ⊥) → Ensures P m Q E
  raises_nothing {m} k = record { at = λ s h. Post-total (m s).0 (m s).1 (k.at s h) }

  -- What never returns raises.
  pub always_raises :
      (r : Outcome A) (s : S) → Post (λ a s. ⊥) E r s → (e : Exception) × (r ≡ raised e) × E e s
  always_raises (ok a) s h = absurd h
  always_raises (raised e) s h = (e, refl, h)

  -- What never raises returns.
  pub always_returns :
      (r : Outcome A) (s : S) → Post Q (λ e s. ⊥) r s → (a : A) × (r ≡ ok a) × Q a s
  always_returns (ok a) s h = (a, refl, h)
  always_returns (raised e) s h = absurd h

module _ {S A : Type 0} (Q : A → S → Type 0) (Q' : A → S → Type 0)
    (E : Exception → S → Type 0) where
  Post-map : (r : Outcome A) (s : S) → ((a : A) → Q a s → Q' a s) → Post Q E r s → Post Q' E r s
  Post-map (ok a) s f h = f a h
  Post-map (raised e) s f h = h

  pub Ensures_map :
      {P : S → Type 0} {m : Action S A}
      → ((a : A) (s : S) → Q a s → Q' a s)
      → Ensures P m Q E
      → Ensures P m Q' E
  Ensures_map {m} f k = record {
    at = λ s h. Post-map (m s).0 (m s).1 (λ a. f a (m s).1) (k.at s h);
  }
