-- ===== src/Auth/Sessions/Refresh.antt =====
-- What `refresh` of app/auth/service.py does to the committed refresh tokens: nothing, or one step.
use mathlib.Core.Path.{subst}
use mathlib.Core.Bool.{false≢true}
use ai_backend_foundation.Action.{Action, Outcome, ok, pure, raised}
use ai_backend_foundation.Action.Rules.{Ensures, Ensures-bind, Ensures_map, Ensures_of_Keeps, Post}
use ai_backend_foundation.Auth.Atomic.Service.{rotate-IsClean}
use ai_backend_foundation.Auth.Atomic.Statements.{presented_record-Uncommitted}
use ai_backend_foundation.Auth.Domain.{AccessToken, RefreshToken, RefreshTokenRecord}
use ai_backend_foundation.Auth.Invariant.{IsConsistent, TokensApart}
use ai_backend_foundation.Auth.Persistence.{token_to_domain}
use ai_backend_foundation.Auth.Persistence.Writes.{revoke_family-Gives, rows_with}
use ai_backend_foundation.Auth.Rotation.{IsPresented, IsRotation}
use ai_backend_foundation.Auth.Rotation.Issue.{given}
use ai_backend_foundation.Auth.Rotation.Presented.{presented_record-IsPresented}
use ai_backend_foundation.Auth.Rotation.Returns.Service.{presented-row}
use ai_backend_foundation.Auth.Rotation.Success.{rotate-IsRotation}
use ai_backend_foundation.Auth.Service.{
  AuthService, check_reuse, presented_record, refresh, report_reuse, rotate,
}
use ai_backend_foundation.Auth.Sessions.{TokenStep, revoked_family, rotated}
use ai_backend_foundation.Auth.Sessions.Methods.{Refined, stepped, unchanged}
use ai_backend_foundation.Database.{Database, RefreshTokenRow, World}
use ai_backend_foundation.Database.Steps.{
  At, ask_step, commit_try, log_event_step, raises, run_step,
}
use ai_backend_foundation.Prelude.{
  All, AllPairs, Bool-cases, List, String, [], ap, arith, first, inl, inr, is_some, refl, select,
  some, some_eq, suc, sym, true, ℕ, ◌==◌, ◌∙◌, ◌∷◌, ◌≡◌, ◌⊎◌,
}
use ai_backend_foundation.Shared.Types.{Uuid}

-- Two things that are known of what an action raises.
with_kept :
    {A : Type 0} {P : World → Type 0} {Q : A → World → Type 0} (U : World → Type 0)
    (m : Action World A)
    → Ensures P m Q (λ e w. Unit)
    → Ensures P m (λ a w. Unit) (λ e w. U w)
    → Ensures P m Q (λ e w. U w)
with_kept {A} {P} {Q} U m k c = record { at = λ w h. both (m w).0 (m w).1 (k.at w h) (c.at w h) }
  where
    both :
        (r : Outcome A) (w : World)
        → Post Q (λ e w. Unit) r w
        → Post (λ a w. Unit) (λ e w. U w) r w
        → Post Q (λ e w. U w) r w
    both (ok a) w q u = q
    both (raised e) w q u = u

others :
    (id : Uuid) (r : RefreshTokenRow) (rows : List RefreshTokenRow) (old : RefreshTokenRow)
    → (r.id == id) ≡ true
    → All (TokensApart r) rows
    → All (λ x. (x.id == id) ≡ true → x.family_id ≡ old.family_id) rows
others id r [] old here far = tt
others id r (x ∷ rows) old here (away, far) =
    (λ e. absurd (away.0 (ground (arith, here, e))), others id r rows old here far)

-- The row that is found under an id is the only one with it.
found_alone :
    (id : Uuid) (rows : List RefreshTokenRow) (old : RefreshTokenRow)
    → AllPairs TokensApart rows
    → first (select (λ r. r.id == id) rows) ≡ some old
    → All (λ r. (r.id == id) ≡ true → r.family_id ≡ old.family_id) rows
found_alone id [] old apart h = tt
found_alone id (r ∷ rows) old (far, apart) h = elim (Bool-cases (r.id == id)) [
  | inl here ↦
      let same : r ≡ old = some_eq (rw here at h) in
      (λ e. ap (λ (x : RefreshTokenRow). x.family_id) same, others id r rows old here far)
  | inr other ↦
      (λ e. absurd (false≢true (sym other ∙ e)), found_alone id rows old apart (rw other at h))
]

module _ (self : AuthService) (d : Database) (consistent : IsConsistent d) where
  record_step :
      (n : ℕ) (token : String)
      → Ensures
          (At d d n)
          (presented_record self token)
          (λ r w. IsPresented self d n token r × At d d (suc n) w)
          (λ e w. Refined d w)
  record_step n token =
      with_kept (λ w. Refined d w) _ (presented_record-IsPresented self d d n consistent token)
        (record {
          at = λ w h.
              (Ensures_of_Keeps (λ a w. Unit) (λ e w. Refined d w) _
                  (presented_record-Uncommitted d self token) (λ a w h. tt)
                  (λ e w h. unchanged self d w h)).at
                w h.0;
        })

  report_step :
      (n : ℕ) (r : RefreshTokenRecord)
      → Ensures (At d d n) (report_reuse self r) (λ a w. ⊥) (λ e w. Refined d w)
  unfolding report_reuse
  report_step n r = ask_step _ _ _ _ (
      run_step _ _ _ _ (revoke_family-Gives d d _ r.family_id (self.clock.now n)) (
        commit_try _ _ _ (λ no e w h. unchanged self d w h)
          λ exists. log_event_step _ _ _ _ (
            raises _ _ _ λ w h.
              stepped self d _ w (revoked_family r.family_id (self.clock.now n) d.refresh_tokens)
                h.0)))

  reuse_step :
      (n : ℕ) (r : RefreshTokenRecord)
      → Ensures (At d d n) (check_reuse self r) (λ a w. At d d n w) (λ e w. Refined d w)
  unfolding check_reuse pure
  reuse_step n r = elim (Bool-cases (is_some r.revoked_at)) [
    | inr live ↦ rw live (record { at = λ w h. h })
    | inl revoked ↦ elim (Bool-cases (is_some r.replaced_by)) [
      | inr unused ↦ rw (revoked, unused) (record { at = λ w h. h })
      | inl used ↦ rw (revoked, used) (Ensures_map _ _ _ (λ a w h. absurd h) (report_step n r))
    ]
  ]

  rotation_of :
      (old : RefreshTokenRow)
      → first (rows_with old.id d) ≡ some old
      → (m : ℕ) (tokens : AccessToken × RefreshToken) (w : World)
      → IsRotation self d m (token_to_domain old) tokens w
      → Refined d w
  rotation_of old found m tokens w h = inr (
      subst (λ x. TokenStep d.refresh_tokens x) (sym h.tables)
        (rotated old _ h.at d.refresh_tokens (refl, refl) refl
          (record {
            found = found;
            unrevoked = h.unrevoked;
            alone = found_alone old.id d.refresh_tokens old consistent.tokens_apart found;
          })))

  clean_kept :
      {A : Type 0} (r : Outcome A) (w : World)
      → Post (λ a w. Unit) (λ e w. (w.committed ≡ d) ⊎ ⊥) r w
      → Post (λ a w. Unit) (λ e w. Refined d w) r w
  clean_kept (ok a) w h = tt
  clean_kept (raised e) w (inl h) = unchanged self d w h
  clean_kept (raised e) w (inr h) = absurd h

  rotation_step :
      (n : ℕ) (token : String) (r : RefreshTokenRecord) (m : ℕ)
      → IsPresented self d n token r
      → Ensures (At d d m) (rotate self r) (λ a w. Refined d w) (λ e w. Refined d w)
  rotation_step n token r m presented =
      Ensures_map _ _ _
        (λ tokens w h.
          let (row_found, found, same) = presented-row self d n token r presented in
          rotation_of row_found
            (subst (λ (x : RefreshTokenRecord). first (rows_with x.id d) ≡ some row_found)
              (sym same) found)
            m tokens w (subst (λ x. IsRotation self d m x tokens w) (sym same) h))
        (with_kept (λ w. Refined d w) _ (rotate-IsRotation self d d m consistent r)
          (record { at = λ w h. clean_kept _ _ ((rotate-IsClean self d r (λ e. ⊥)).at w h.0) }))

  pub refresh-IsRefined :
      (n : ℕ) (token : String)
      → Ensures (At d d n) (refresh self token) (λ a w. Refined d w) (λ e w. Refined d w)
  unfolding refresh
  refresh-IsRefined n token =
      Ensures-bind _
        (λ r. given λ presented.
          Ensures-bind _ (λ u. rotation_step n token r (suc n) presented) _ (reuse_step (suc n) r))
        _ (record_step n token)
