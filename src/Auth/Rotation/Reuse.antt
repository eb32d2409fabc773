-- ===== src/Auth/Rotation/Reuse.antt =====
-- The branch of `refresh` for a token that was replaced before: its whole family is revoked.
use mathlib.Core.Path.{subst}
use ai_backend_foundation.Action.{raised}
use ai_backend_foundation.Action.Rules.{
  Ensures, Ensures-bind, always_raises, known_step, raises_nothing,
}
use ai_backend_foundation.Auth.Domain.{RefreshTokenRecord, refresh_reuse_detected_error}
use ai_backend_foundation.Auth.Invariant.{IsConsistent}
use ai_backend_foundation.Auth.Persistence.{is_live_in, revoke_at}
use ai_backend_foundation.Auth.Persistence.Writes.{family_revoked_in, revoke_family-Gives}
use ai_backend_foundation.Auth.Rotation.{IsPresented}
use ai_backend_foundation.Auth.Rotation.Presented.{presented_record_passes}
use ai_backend_foundation.Auth.Service.{AuthService, check_reuse, refresh, report_reuse}
use ai_backend_foundation.Database.{
  Database, RefreshTokenRow, World, has_token, refers, replacement_exists,
}
use ai_backend_foundation.Database.Steps.{
  At, Replaced, ask_step, commit_step, log_event_step, raises, run_step,
}
use ai_backend_foundation.Prelude.{
  All, Bool, List, Option, String, [], all, ap, arith, is_some, none, refl, some, suc, sym, true,
  update_where, ℕ, ◌∙◌, ◌∷◌, ◌≡◌,
}
use ai_backend_foundation.Shared.Errors.{app}
use ai_backend_foundation.Shared.Types.{DateTime, Uuid}

-- A revocation changes neither the ids nor the replacements, so the deferred constraint still
-- holds.
has_token-update :
    (p : RefreshTokenRow → Bool) (at : DateTime) (id : Uuid) (rows : List RefreshTokenRow)
    → has_token (update_where p (revoke_at at) rows) id ≡ has_token rows id
has_token-update p at id [] = refl
has_token-update p at id (r ∷ rows) = ground (arith, has_token-update p at id rows)

refers-update :
    (p : RefreshTokenRow → Bool) (at : DateTime) (rows : List RefreshTokenRow) (o : Option Uuid)
    → refers (update_where p (revoke_at at) rows) o ≡ refers rows o
refers-update p at rows none = refl
refers-update p at rows (some id) = has_token-update p at id rows

replacements-update :
    (p : RefreshTokenRow → Bool) (at : DateTime) (all_rows rows : List RefreshTokenRow)
    → all
        (replacement_exists (update_where p (revoke_at at) all_rows))
        (update_where p (revoke_at at) rows)
      ≡ all (replacement_exists all_rows) rows
replacements-update p at all_rows [] = refl
replacements-update p at all_rows (r ∷ rows) =
    ground
      (arith, refers-update p at all_rows r.replaced_by, replacements-update p at all_rows rows)

-- Every token of the family `f` is revoked.
abbrev pub FamilyRevoked : Uuid → Database → Type 0
FamilyRevoked f d = All (λ r. r.family_id ≡ f → is_some r.revoked_at ≡ true) d.refresh_tokens

pub family_revoked_in-FamilyRevoked :
    (d : Database) (f : Uuid) (at : DateTime) → FamilyRevoked f (family_revoked_in d f at)
family_revoked_in-FamilyRevoked d f at = go d.refresh_tokens
  where
    go :
        (rows : List RefreshTokenRow)
        → All
            (λ r. r.family_id ≡ f → is_some r.revoked_at ≡ true)
            (update_where (is_live_in f) (revoke_at at) rows)
    go [] = tt
    go (r ∷ rows) = (λ e. ground arith, go rows)

module _ (self : AuthService) (c d : Database) (n : ℕ) (replaced : Replaced d)
    (r : RefreshTokenRecord) where
  report_reuse-Ensures :
      Ensures
        (At c d n)
        (report_reuse self r)
        (λ a w. ⊥)
        (λ e w.
          (e ≡ app (refresh_reuse_detected_error none))
          × (w.committed ≡ family_revoked_in d r.family_id (self.clock.now n)))
  unfolding report_reuse
  report_reuse-Ensures = ask_step _ _ _ _ (
      run_step _ _ _ _ (revoke_family-Gives c d _ r.family_id (self.clock.now n)) (
        commit_step _ _ _
          (replacements-update (is_live_in r.family_id) (self.clock.now n) d.refresh_tokens
              d.refresh_tokens
            ∙ replaced)
          (log_event_step _ _ _ _ (raises _ _ _ λ w h. (refl, h.0)))))

  check_reuse-Ensures :
      is_some r.revoked_at ≡ true
      → is_some r.replaced_by ≡ true
      → Ensures
          (At c d n)
          (check_reuse self r)
          (λ a w. ⊥)
          (λ e w.
            (e ≡ app (refresh_reuse_detected_error none))
            × (w.committed ≡ family_revoked_in d r.family_id (self.clock.now n)))
  unfolding check_reuse
  check_reuse-Ensures revoked used = rw (revoked, used) report_reuse-Ensures

refresh_reused-Ensures :
    (self : AuthService) (c d : Database) (n : ℕ) (token : String) (r : RefreshTokenRecord)
    → IsConsistent d
    → Replaced d
    → IsPresented self d n token r
    → is_some r.revoked_at ≡ true
    → is_some r.replaced_by ≡ true
    → Ensures
        (At c d n)
        (refresh self token)
        (λ a w. ⊥)
        (λ e w.
          (e ≡ app (refresh_reuse_detected_error none))
          × (w.committed ≡ family_revoked_in d r.family_id (self.clock.now (suc n))))
unfolding refresh
refresh_reused-Ensures self c d n token r consistent replaced presented revoked used =
    known_step _ _ _ _ r
      (raises_nothing _ _ (presented_record_passes self c d n consistent token r presented))
      (Ensures-bind _ (λ u. record { at = λ v h. absurd h }) _
        (check_reuse-Ensures self c d (suc n) replaced r revoked used))

-- On consistent tables in which every replacement exists: a genuine token that was revoked and
-- replaced before, presented again, raises `RefreshReuseDetectedError`; in
-- the committed tables every token of its family is then revoked, and nothing else has changed.
pub refresh-reused :
    (self : AuthService) (w : World) (token : String) (r : RefreshTokenRecord)
    → IsConsistent w.db
    → Replaced w.db
    → IsPresented self w.db w.asked token r
    → is_some r.revoked_at ≡ true
    → is_some r.replaced_by ≡ true
    → ((refresh self token w).0 ≡ raised (app (refresh_reuse_detected_error none)))
      × FamilyRevoked r.family_id (refresh self token w).1.committed
      × ((refresh self token w).1.committed
          ≡ family_revoked_in w.db r.family_id (self.clock.now (suc w.asked)))
refresh-reused self w token r consistent replaced presented revoked used =
    let (e, raises, facts) =
      always_raises (λ a s. ⊥) _ _ _
        ((refresh_reused-Ensures self w.committed w.db w.asked token r consistent replaced presented
            revoked used).at
          w (refl, refl, refl)) in
    (
      raises ∙ ap raised facts.0,
      subst (FamilyRevoked r.family_id) (sym facts.1)
          (family_revoked_in-FamilyRevoked w.db r.family_id (self.clock.now (suc w.asked))),
      facts.1,
    )
