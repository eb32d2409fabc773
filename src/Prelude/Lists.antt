-- ===== src/Prelude/Lists.antt =====
-- Lists measured by native numbers, with Boolean tests and predicates by recursion.
use Prim.Native.Nat.{ℕ, zero, suc}
use mathlib.Core.Path.{◌≡◌, refl}
use mathlib.Core.Logic.{inl, inr}
use mathlib.Core.Bool.{Bool, true, false, ◌&&◌, ◌||◌}
use mathlib.Core.Option.{Option, none, some}
use mathlib.Core.List.{List, [], ◌∷◌, ◌++◌, map}
use native.Mathlib.Omega.{arith}
use ai_backend_foundation.Prelude.Tests.{if◌then◌else◌, Bool-cases}

module _ {ℓ} {A : Type ℓ} where
  abbrev pub length : List A → ℕ
  length [] = 0
  length (x ∷ xs) = suc (length xs)

  abbrev pub any : (A → Bool) → List A → Bool
  any p [] = false
  any p (x ∷ xs) = p x || any p xs

  abbrev pub all : (A → Bool) → List A → Bool
  all p [] = true
  all p (x ∷ xs) = p x && all p xs

  -- The elements that a `WHERE` clause selects.
  abbrev pub select : (A → Bool) → List A → List A
  select p [] = []
  select p (x ∷ xs) = let rest = select p xs in if p x then x ∷ rest else rest

  -- An `UPDATE` of the elements that a `WHERE` clause selects.
  abbrev pub update_where : (A → Bool) → (A → A) → List A → List A
  update_where p f [] = []
  update_where p f (x ∷ xs) = (if p x then f x else x) ∷ update_where p f xs

  abbrev pub first : List A → Option A
  first [] = none
  first (x ∷ xs) = some x

  abbrev pub take : ℕ → List A → List A
  take zero xs = []
  take (suc n) [] = []
  take (suc n) (x ∷ xs) = x ∷ take n xs

  abbrev pub drop : ℕ → List A → List A
  drop zero xs = xs
  drop (suc n) [] = []
  drop (suc n) (x ∷ xs) = drop n xs

  abbrev pub flatten : List (List A) → List A
  flatten [] = []
  flatten (xs ∷ xss) = xs ++ flatten xss

  abbrev pub AtMostOne : List A → Type 0
  AtMostOne [] = Unit
  AtMostOne (x ∷ []) = Unit
  AtMostOne (x ∷ y ∷ xs) = ⊥

module _ {ℓ κ} {A : Type ℓ} where
  abbrev pub All : (A → Type κ) → List A → Type κ
  All P [] = Unit
  All P (x ∷ xs) = P x × All P xs

  abbrev pub AllPairs : (A → A → Type κ) → List A → Type κ
  AllPairs R [] = Unit
  AllPairs R (x ∷ xs) = All (R x) xs × AllPairs R xs

  pub All-of_any :
      (p : A → Bool) (P : A → Type κ)
      → ((x : A) → p x ≡ false → P x)
      → (xs : List A) → any p xs ≡ false
      → All P xs
  All-of_any p P f [] h = tt
  All-of_any p P f (x ∷ xs) h = (f x (ground arith), All-of_any p P f xs (ground arith))

  pub All-mono :
      {P : A → Type κ} {Q : A → Type κ}
      → ((x : A) → P x → Q x)
      → (xs : List A) → All P xs
      → All Q xs
  All-mono f [] h = tt
  All-mono f (x ∷ xs) (p, h) = (f x p, All-mono f xs h)

module _ {ℓ κ} {A : Type ℓ} (P : A → Type κ) where
  if_elim : (b : Bool) (x y : A) → P x → P y → P (if b then x else y)
  if_elim true x y px py = px
  if_elim false x y px py = py

  All-if_cons : (b : Bool) (x : A) (xs : List A) → P x → All P xs → All P (if b then x ∷ xs else xs)
  All-if_cons true x xs q h = (q, h)
  All-if_cons false x xs q h = h

  -- Every selected row has what every row has.
  pub All-select : (p : A → Bool) (xs : List A) → All P xs → All P (select p xs)
  All-select p [] h = tt
  All-select p (x ∷ xs) (q, h) = All-if_cons (p x) x (select p xs) q (All-select p xs h)

  pub All-update_where :
      (p : A → Bool) (f : A → A)
      → ((x : A) → P x → P (f x))
      → (xs : List A) → All P xs
      → All P (update_where p f xs)
  All-update_where p f keep [] h = tt
  All-update_where p f keep (x ∷ xs) (q, h) =
      (if_elim (p x) (f x) x (keep x q) q, All-update_where p f keep xs h)

module _ {ℓ κ} {A : Type ℓ} (R : A → A → Type κ) (p : A → Bool)
    (alone : (x y : A) → R x y → p x ≡ true → p y ≡ true → ⊥) where
  select_nil : (x : A) → p x ≡ true → (xs : List A) → All (R x) xs → select p xs ≡ []
  select_nil x px [] h = refl
  select_nil x px (y ∷ ys) (r, h) = elim (Bool-cases (p y)) [
    | inl py ↦ absurd (alone x y r px py)
    | inr py ↦ rw py (select_nil x px ys h)
  ]

  -- A test that two separate rows cannot both pass selects at most one row.
  pub AtMostOne-select : (xs : List A) → AllPairs R xs → AtMostOne (select p xs)
  AtMostOne-select [] h = tt
  AtMostOne-select (x ∷ xs) (q, h) = elim (Bool-cases (p x)) [
    | inl px ↦ rw (px, select_nil x px xs q) tt
    | inr px ↦ rw px (AtMostOne-select xs h)
  ]

pub AtMostOne-map {ℓ κ} :
    {A : Type ℓ} {B : Type κ} (f : A → B) (xs : List A) → AtMostOne xs → AtMostOne (map f xs)
AtMostOne-map f [] h = tt
AtMostOne-map f (x ∷ []) h = tt
AtMostOne-map f (x ∷ y ∷ xs) h = absurd h
