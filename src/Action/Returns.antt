-- ===== src/Action/Returns.antt =====
-- What is known of the steps of a method from what comes out of it.
use ai_backend_foundation.Action.{Action, Outcome, continue, ok, raised, ◌>>=◌}
use ai_backend_foundation.Prelude.{refl, ◌≡◌}

-- A step returned `a`, and the rest went on from the state it left.
pub record Returned {ℓ} {S A B : Type ℓ} (m : Action S A) (f : A → Action S B) (s : S) (b : B)
    : Type ℓ where
  pub result : A
  pub step : (m s).0 ≡ ok result
  pub rest : (f result (m s).1).0 ≡ ok b
  pub whole : (m >>= f) s ≡ f result (m s).1

module _ {ℓ} {S A B : Type ℓ} where
  Returned-continue :
      (r : Outcome A) (f : A → Action S B) (s : S) {b : B}
      → (continue r f s).0 ≡ ok b
      → (a : A) × (r ≡ ok a) × ((f a s).0 ≡ ok b) × (continue r f s ≡ f a s)
  Returned-continue (ok a) f s h = (a, refl, h, refl)
  Returned-continue (raised e) f s h = cc

  pub Returned-bind :
      (m : Action S A) (f : A → Action S B) (s : S) {b : B}
      → ((m >>= f) s).0 ≡ ok b
      → Returned m f s b
  unfolding ◌>>=◌
  Returned-bind m f s h =
      let (a, step, rest, whole) = Returned-continue (m s).0 f (m s).1 h in
      record { result = a; step = step; rest = rest; whole = whole }
