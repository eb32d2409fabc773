-- ===== src/Action.antt =====
-- Methods that change a state and may raise. What was written before an exception stays written,
-- so the state comes back beside the exception too. `Answers` is the part of the state that counts
-- what the program has asked of its surroundings: the clock, random identifiers, salts, signatures.
pub mod Rules
pub mod Returns
use ai_backend_foundation.Prelude.{Bool, false, inl, inr, refl, true, ◌≡◌, ◌⊎◌}
use ai_backend_foundation.Shared.Errors.{Exception}

pub data Outcome {ℓ} (A : Type ℓ) : Type ℓ where
  ok : A → Outcome A
  raised : Exception → Outcome A

pub Outcome-cases {ℓ} :
    {A : Type ℓ} (r : Outcome A) → ((a : A) × (r ≡ ok a)) ⊎ ((e : Exception) × (r ≡ raised e))
Outcome-cases (ok a) = inl (a, refl)
Outcome-cases (raised e) = inr (e, refl)

abbrev pub Action {ℓ} : Type ℓ → Type ℓ → Type ℓ
Action S A = S → Outcome A × S

module _ {ℓ} {S A : Type ℓ} where
  unfoldable pub pure : A → Action S A
  pure a s = (ok a, s)

  unfoldable pub raise : Exception → Action S A
  raise e s = (raised e, s)

  unfoldable pub lift : Outcome A → Action S A
  lift r s = (r, s)

  unfoldable pub gets : (S → A) → Action S A
  gets f s = (ok (f s), s)

module _ {ℓ} {S : Type ℓ} where
  unfoldable pub modify : (S → S) → Action S Unit
  modify f s = (ok tt, f s)

  -- `if test: raise e`
  unfoldable pub raise_if : Bool → Exception → Action S Unit
  raise_if true e s = (raised e, s)
  raise_if false e s = (ok tt, s)

module _ {ℓ} {S A B : Type ℓ} where
  abbrev pub continue : Outcome A → (A → Action S B) → Action S B
  continue (ok a) f s = f a s
  continue (raised e) f s = (raised e, s)

  infixl 10 ◌>>=◌ ◌>>◌
  unfoldable pub ◌>>=◌ : Action S A → (A → Action S B) → Action S B
  ◌>>=◌ m f s = let (r, s') = m s in continue r f s'

  abbrev pub ◌>>◌ : Action S A → Action S B → Action S B
  m >> n = m >>= λ _. n

-- `try: m finally: last`. An exception of `last` takes the place of what `m` returned or raised.
abbrev pub finally_outcome : {A S : Type 0} → Outcome A → Outcome (Unit {0}) × S → Outcome A × S
finally_outcome r (ok a, s) = (r, s)
finally_outcome r (raised e, s) = (raised e, s)

unfoldable pub try_finally : {A S : Type 0} → Action S A → Action S (Unit {0}) → Action S A
try_finally m last s = let (r, s') = m s in finally_outcome r (last s')
