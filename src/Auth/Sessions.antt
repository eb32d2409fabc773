-- ===== src/Auth/Sessions.antt =====
-- The refresh tokens as a state machine: what a request may do to the committed rows of
-- `refresh_tokens`, in one step, and what no step undoes.
pub mod Methods
pub mod Refresh
pub mod Refinement
use mathlib.Core.Bool.{false≢true}
use ai_backend_foundation.Auth.Persistence.{
  clashes, is_active_in, is_live_in, replace_with, revoke_at,
}
use ai_backend_foundation.Auth.Rotation.Returns.Rows.{All-first_select}
use ai_backend_foundation.Database.{RefreshTokenRow}
use ai_backend_foundation.Prelude.{
  All, All-update_where, Bool, Bool-cases, List, [], any, arith, false, first, inl, inr, is_some,
  none, refl, select, some, sym, true, update_where, ◌==◌, ◌∙◌, ◌∷◌, ◌≡◌, ◌≢◌,
}
use ai_backend_foundation.Shared.Types.{DateTime, Uuid}

-- A row that stands for a token that was just made.
abbrev pub IsFreshRow : RefreshTokenRow → Type 0
IsFreshRow row = (row.revoked_at ≡ none) × (row.replaced_by ≡ none)

-- The only row with its id is `old`, so far as its family counts, and it is not revoked.
pub record IsCurrent (old : RefreshTokenRow) (rows : List RefreshTokenRow) : Type 0 where
  pub found : first (select (λ r. r.id == old.id) rows) ≡ some old
  pub unrevoked : is_some old.revoked_at ≡ false
  pub alone : All (λ r. (r.id == old.id) ≡ true → r.family_id ≡ old.family_id) rows

pub data TokenStep : List RefreshTokenRow → List RefreshTokenRow → Type 0 where
  -- A login, in a family that has no active token.
  issued :
      (row : RefreshTokenRow) (rows : List RefreshTokenRow)
      → IsFreshRow row
      → any (clashes row) rows ≡ false
      → TokenStep rows (row ∷ rows)
  -- A refresh, which replaces an unrevoked token of the family.
  rotated :
      (old row : RefreshTokenRow) (at : DateTime) (rows : List RefreshTokenRow)
      → IsFreshRow row
      → row.family_id ≡ old.family_id
      → IsCurrent old rows
      → TokenStep rows (row ∷ update_where (λ r. r.id == old.id) (replace_with row.id at) rows)
  -- A logout.
  revoked_token :
      (id : Uuid) (at : DateTime) (rows : List RefreshTokenRow)
      → TokenStep rows (update_where (λ r. r.id == id) (revoke_at at) rows)
  -- The answer to a token that is used again.
  revoked_family :
      (family_id : Uuid) (at : DateTime) (rows : List RefreshTokenRow)
      → TokenStep rows (update_where (is_live_in family_id) (revoke_at at) rows)

-- Every token of the family is revoked, and one of them, the last, has no replacement.
pub record IsLocked (family_id : Uuid) (rows : List RefreshTokenRow) : Type 0 where
  pub revoked : All (λ r. r.family_id ≡ family_id → is_some r.revoked_at ≡ true) rows
  pub last : any (is_active_in family_id) rows ≡ true

module _ (f : Uuid) where
  abbrev RevokedIn : RefreshTokenRow → Type 0
  RevokedIn r = r.family_id ≡ f → is_some r.revoked_at ≡ true

  -- An update that keeps which rows of the family have no replacement.
  any-update_where :
      (p : RefreshTokenRow → Bool) (g : RefreshTokenRow → RefreshTokenRow)
      (rows : List RefreshTokenRow)
      → All (λ r. p r ≡ true → is_active_in f (g r) ≡ is_active_in f r) rows
      → any (is_active_in f) rows ≡ true
      → any (is_active_in f) (update_where p g rows) ≡ true
  any-update_where p g [] same h = h
  any-update_where p g (r ∷ rows) same h = elim (Bool-cases (p r)) [
    | inl chosen_here ↦
        let kept = same.0 chosen_here in
        rw (chosen_here, kept) (ground (arith, h, any-update_where p g rows same.1))
    | inr other ↦ rw other (ground (arith, h, any-update_where p g rows same.1))
  ]

  issued_elsewhere :
      (row : RefreshTokenRow) (rows : List RefreshTokenRow)
      → row.replaced_by ≡ none
      → row.family_id ≡ f
      → any (is_active_in f) rows ≡ true
      → any (clashes row) rows ≡ true
  issued_elsewhere row [] free mine h = h
  issued_elsewhere row (r ∷ rows) free mine h =
      ground (arith, h, free, mine, issued_elsewhere row rows free mine)

  -- A row that an update makes, where every change leaves the row revoked.
  All-revoked :
      (p : RefreshTokenRow → Bool) (g : RefreshTokenRow → RefreshTokenRow)
      (rows : List RefreshTokenRow)
      → ((r : RefreshTokenRow) → is_some (g r).revoked_at ≡ true)
      → All RevokedIn rows
      → All RevokedIn (update_where p g rows)
  All-revoked p g rows revokes = All-update_where RevokedIn p g (λ r h e. revokes r) rows

  same_activity :
      (p : RefreshTokenRow → Bool) (at : DateTime) (rows : List RefreshTokenRow)
      → All (λ r. p r ≡ true → is_active_in f (revoke_at at r) ≡ is_active_in f r) rows
  same_activity p at [] = tt
  same_activity p at (r ∷ rows) = (λ e. refl, same_activity p at rows)

  -- Rows of another family may be replaced.
  inactive :
      (old : RefreshTokenRow) (new : Uuid) (at : DateTime)
      → old.family_id ≢ f
      → (rows : List RefreshTokenRow)
      → All (λ r. (r.id == old.id) ≡ true → r.family_id ≡ old.family_id) rows
      → All
          (λ r. (r.id == old.id) ≡ true → is_active_in f (replace_with new at r) ≡ is_active_in f r)
          rows
  inactive old new at elsewhere [] alone = tt
  inactive old new at elsewhere (r ∷ rows) alone =
      (λ e. ground (arith, elsewhere, alone.0 e), inactive old new at elsewhere rows alone.1)

  not_rotated :
      (old : RefreshTokenRow) (rows : List RefreshTokenRow)
      → IsLocked f rows
      → IsCurrent old rows
      → old.family_id ≢ f
  not_rotated old rows locked current mine =
      false≢true (
        sym current.unrevoked ∙ All-first_select RevokedIn _ rows locked.revoked current.found mine)

  -- No step unlocks a family.
  pub TokenStep-IsLocked :
      (rows rows' : List RefreshTokenRow)
      → TokenStep rows rows'
      → IsLocked f rows
      → IsLocked f rows'
  TokenStep-IsLocked _ _ (issued row rows fresh apart) locked = record {
    revoked = (
      λ mine. absurd (false≢true (sym apart ∙ issued_elsewhere row rows fresh.1 mine locked.last)),
      locked.revoked,
    );
    last = ground (arith, locked.last);
  }
  TokenStep-IsLocked _ _ (rotated old row at rows fresh family current) locked =
      let elsewhere = not_rotated old rows locked current in
      record {
        revoked = (
          λ mine. absurd (elsewhere (sym family ∙ mine)),
          All-revoked (λ r. r.id == old.id) (replace_with row.id at) rows (λ r. refl)
              locked.revoked,
        );
        last = ground (
          arith,
          any-update_where (λ r. r.id == old.id) (replace_with row.id at) rows
              (inactive old row.id at elsewhere rows current.alone) locked.last,
        );
      }
  TokenStep-IsLocked _ _ (revoked_token id at rows) locked = record {
    revoked = All-revoked (λ r. r.id == id) (revoke_at at) rows (λ r. refl) locked.revoked;
    last =
        any-update_where (λ r. r.id == id) (revoke_at at) rows
          (same_activity (λ r. r.id == id) at rows) locked.last;
  }
  TokenStep-IsLocked _ _ (revoked_family g at rows) locked = record {
    revoked = All-revoked (is_live_in g) (revoke_at at) rows (λ r. refl) locked.revoked;
    last =
        any-update_where (is_live_in g) (revoke_at at) rows (same_activity (is_live_in g) at rows)
          locked.last;
  }
