-- ===== src/Auth/Rotation/Returns/Rows.antt =====
-- The rows of `refresh_tokens` after a token was marked as replaced: its family has no active token,
-- and the new row takes the place that the index on active tokens guards.
use mathlib.Core.Path.{subst}
use ai_backend_foundation.Auth.Invariant.{TokensApart}
use ai_backend_foundation.Auth.Persistence.{clashes, is_active_in, replace_with}
use ai_backend_foundation.Database.{RefreshTokenRow, has_token, replacement_exists}
use ai_backend_foundation.Prelude.{
  All, AllPairs, Bool, Bool-cases, List, Option-cases, String, [], all, any, ap, arith, false,
  first, inl, inr, none, refl, select, some, some_eq, str_eq, true, update_where, ◌==◌, ◌||◌, ◌∙◌,
  ◌∷◌, ◌≡◌,
}
use ai_backend_foundation.Shared.Types.{DateTime, Uuid}

abbrev mark : Uuid → Uuid → DateTime → List RefreshTokenRow → List RefreshTokenRow
mark id new at = update_where (λ (r : RefreshTokenRow). r.id == id) (replace_with new at)

pub any-first-select :
    {A : Type 0} (p : A → Bool) (xs : List A) {x : A}
    → first (select p xs) ≡ some x
    → any p xs ≡ true
any-first-select p [] h = cc
any-first-select p (y ∷ ys) {x} h = elim (Bool-cases (p y)) [
  | inl e ↦ rw e refl
  | inr e ↦ rw e (any-first-select p ys (rw e at h))
]

pub All-first_select :
    {A : Type 0} (P : A → Type 0) (p : A → Bool) (xs : List A) {x : A}
    → All P xs
    → first (select p xs) ≡ some x
    → P x
All-first_select P p [] a h = cc
All-first_select P p (y ∷ ys) {x} (q, a) h = elim (Bool-cases (p y)) [
  | inl e ↦ subst P (some_eq (rw e at h)) q
  | inr e ↦ All-first_select P p ys a (rw e at h)
]

-- The other tokens of the family of an active token are replaced, before and after an update.
others_inactive :
    (f id new : Uuid) (at : DateTime) (x : RefreshTokenRow) (rows : List RefreshTokenRow)
    → All (TokensApart x) rows
    → x.family_id ≡ f
    → x.replaced_by ≡ none
    → any (is_active_in f) (mark id new at rows) ≡ false
others_inactive f id new at x [] a e free = refl
others_inactive f id new at x (y ∷ rows) (apart, a) e free = elim (Option-cases y.replaced_by) [
  | inl active ↦ ground (arith, others_inactive f id new at x rows a e free, apart.2)
  | inr (other, replaced) ↦ ground (arith, others_inactive f id new at x rows a e free)
]

-- Once the active token of a family is marked, no row of the family is active.
pub mark_inactive :
    (id new : Uuid) (at : DateTime) (r : RefreshTokenRow) (rows : List RefreshTokenRow)
    → AllPairs TokensApart rows
    → first (select (λ (x : RefreshTokenRow). x.id == id) rows) ≡ some r
    → r.replaced_by ≡ none
    → any (is_active_in r.family_id) (mark id new at rows) ≡ false
mark_inactive id new at r [] a h free = refl
mark_inactive id new at r (x ∷ rows) (apart, a) h free = elim (Bool-cases (x.id == id)) [
  | inl e ↦
      let same : x ≡ r = some_eq (rw e at h) in
      let others : any (is_active_in r.family_id) (mark id new at rows) ≡ false =
        others_inactive r.family_id id new at x rows apart
          (ap (λ (y : RefreshTokenRow). y.family_id) same)
          (ap (λ (y : RefreshTokenRow). y.replaced_by) same ∙ free) in
      ground (arith, e, others)
  | inr e ↦
      let there = rw e at h in
      let rest : any (is_active_in r.family_id) (mark id new at rows) ≡ false =
        mark_inactive id new at r rows a there free in
      not_first e rest (All-first_select (TokensApart x) _ rows apart there)
]
  where
    not_first :
        x.id == id ≡ false
        → any (is_active_in r.family_id) (mark id new at rows) ≡ false
        → TokensApart x r
        → any (is_active_in r.family_id) (mark id new at (x ∷ rows)) ≡ false
    not_first e rest from_r = elim (Option-cases x.replaced_by) [
      | inl active ↦ ground (arith, e, rest, from_r.2)
      | inr (other, replaced) ↦ ground (arith, e, rest)
    ]

-- An id and a hash that no row has.
abbrev pub IsFresh : Uuid → String → List RefreshTokenRow → Type 0
IsFresh id hash rows = any (λ (r : RefreshTokenRow). r.id == id || str_eq r.hash hash) rows ≡ false

-- A new row with a fresh id and hash clashes with nothing where its family has no active token.
pub mark-clashes :
    (id new : Uuid) (at : DateTime) (row : RefreshTokenRow) (rows : List RefreshTokenRow)
    → IsFresh row.id row.hash rows
    → any (is_active_in row.family_id) (mark id new at rows) ≡ false
    → any (clashes row) (mark id new at rows) ≡ false
mark-clashes id new at row [] fresh inactive = refl
mark-clashes id new at row (x ∷ rows) fresh inactive =
    let rest : any (clashes row) (mark id new at rows) ≡ false =
      mark-clashes id new at row rows (ground arith) (ground arith) in
    elim (Bool-cases (x.id == id)) [
      | inl e ↦ ground (arith, e, rest)
      | inr e ↦ ground (arith, e, rest)
    ]

has_token-mark :
    (id new : Uuid) (at : DateTime) (rows : List RefreshTokenRow) (other : Uuid)
    → has_token (mark id new at rows) other ≡ has_token rows other
has_token-mark id new at [] other = refl
has_token-mark id new at (x ∷ rows) other = ground (arith, has_token-mark id new at rows other)

-- The replacements still exist when the marked token's own replacement is inserted.
pub mark-Replaced :
    (id new : Uuid) (at : DateTime) (row : RefreshTokenRow) (all_rows rows : List RefreshTokenRow)
    → row.id ≡ new
    → all (replacement_exists all_rows) rows ≡ true
    → all (replacement_exists (row ∷ mark id new at all_rows)) (mark id new at rows) ≡ true
mark-Replaced id new at row all_rows [] named h = refl
mark-Replaced id new at row all_rows (x ∷ rows) named h =
    let rest : all (replacement_exists (row ∷ mark id new at all_rows)) (mark id new at rows)
        ≡ true =
      mark-Replaced id new at row all_rows rows named (ground arith) in
    elim (Option-cases x.replaced_by) [
      | inl none_yet ↦ ground (arith, rest)
      | inr (other, e) ↦ ground (arith, rest, has_token-mark id new at all_rows other)
    ]
