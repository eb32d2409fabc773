-- ===== src/Auth/Rotation/Success.antt =====
-- A `refresh` that returns has rotated a good token: by running `rotate` on known tables.
use mathlib.Core.Path.{subst}
use ai_backend_foundation.Action.{Action, ok, pure, raise, ◌>>=◌}
use ai_backend_foundation.Action.Rules.{Ensures, Ensures-bind, Ensures_map, Post-ok}
use ai_backend_foundation.Auth.Domain.{
  AccessToken, RefreshToken, RefreshTokenRecord, UserAuthRecord, invalid_credentials_error,
}
use ai_backend_foundation.Auth.Invariant.{IsConsistent}
use ai_backend_foundation.Auth.Invariant.Rows.{one_token_by_id, one_user_by_id}
use ai_backend_foundation.Auth.Persistence.{option_map, user_to_domain}
use ai_backend_foundation.Auth.Persistence.Steps.{get_user_by_id-Gives}
use ai_backend_foundation.Auth.Persistence.Writes.{mark_replaced-Gives, revoke_family-Gives}
use ai_backend_foundation.Auth.Rotation.{IsPresented, IsRotation}
use ai_backend_foundation.Auth.Rotation.Issue.{given, issue_in_family}
use ai_backend_foundation.Auth.Rotation.Presented.{presented_record-IsPresented}
use ai_backend_foundation.Auth.Service.{
  AuthService, check_reuse, or_invalid, refresh, report_reuse, rotate,
}
use ai_backend_foundation.Database.{Database, UserRow, World}
use ai_backend_foundation.Database.Steps.{
  At, ask_step, commit_try, log_event_step, raise_if_step, raises, returns, run_step,
}
use ai_backend_foundation.Prelude.{
  Bool, Bool-cases, List, Option, Option-cases, String, [], ap, arith, false, first, if◌then◌else◌,
  inl, inr, is_some, none, refl, select, some, suc, sym, true, ℕ, ◌==◌, ◌∷◌, ◌≡◌,
}
use ai_backend_foundation.Shared.Errors.{Exception, app}
use ai_backend_foundation.Shared.Types.{Uuid}

-- `if not user or user.disabled: raise` on a known answer.
pub or_invalid_step :
    {B : Type 0} {c d : Database} {n : ℕ} (Q : B → World → Type 0) (E : Exception → World → Type 0)
    (o : Option UserAuthRecord) (f : UserAuthRecord → Action World B)
    → (((u : UserAuthRecord) → o ≡ some u → u.disabled ≡ true)
        → (w : World) → w.committed ≡ c
        → E (app (invalid_credentials_error none)) w)
    → ((u : UserAuthRecord) → o ≡ some u → u.disabled ≡ false → Ensures (At c d n) (f u) Q E)
    → Ensures (At c d n) (or_invalid o >>= f) Q E
unfolding or_invalid raise pure ◌>>=◌
or_invalid_step Q E none f stop go = record { at = λ w h. stop (λ u e. cc) w h.0 }
or_invalid_step {c} {d} {n} Q E (some u) f stop go = elim (Bool-cases u.disabled) [
  | inl off ↦ subst Runs (sym off) (record { at = λ w h. stop (λ x e. ground arith) w h.0 })
  | inr on ↦ subst Runs (sym on) (record { at = λ w h. (go u refl on).at w h })
]
  where
    Runs : Bool → Type 0
    Runs b =
        Ensures (At c d n)
          ((if b then raise (app (invalid_credentials_error none)) else pure u) >>= f) Q E

pub first-select :
    {A : Type 0} (p : A → Bool) (xs : List A) {x : A} → first (select p xs) ≡ some x → p x ≡ true
first-select p [] h = cc
first-select p (y ∷ ys) {x} h = ground (arith, first-select p ys {x = x})

pub selected_owner :
    (id : Uuid) (users : List UserRow) (u : UserAuthRecord)
    → option_map user_to_domain (first (select (λ r. r.id == id) users)) ≡ some u
    → u.id ≡ id
selected_owner id users u h =
    elim (Option-cases (first (select (λ (r : UserRow). r.id == id) users))) [
      | inl nothing ↦ cc
      | inr (row, e) ↦ ground (arith, first-select (λ (x : UserRow). x.id == id) users e)
    ]

module _ (self : AuthService) (c d : Database) (n : ℕ) (consistent : IsConsistent d)
    (r : RefreshTokenRecord) where
  -- Every exception is admitted here: the theorem is about what is returned.
  pub rotate-IsRotation : Ensures (At c d n) (rotate self r) (IsRotation self d n r) (λ e w. Unit)
  unfolding rotate
  rotate-IsRotation =
      raise_if_step _ _ _ _ _ (λ b w h. tt)
        λ unrevoked. ask_step _ _ _ _ (
          raise_if_step _ _ _ _ _ (λ b w h. tt)
            λ unexpired.
              run_step _ _ _ _
                (get_user_by_id-Gives c d _ r.user_id (one_user_by_id d consistent r.user_id))
                (or_invalid_step _ _ _ _ (λ no w h. tt)
                  λ user found enabled. ask_step _ _ _ _ (
                    ask_step _ _ _ _ (
                      run_step _ _ _ _
                        (mark_replaced-Gives c d _ r.id _ _ (one_token_by_id d consistent r.id))
                        (Ensures-bind _
                          (λ tokens. given λ known.
                            commit_try _ _ _ (λ _ e w h. tt)
                              λ exists. returns _ _ _ λ w h. record {
                                unrevoked = unrevoked;
                                unexpired = ground arith;
                                user = user;
                                owner = selected_owner r.user_id d.users user found;
                                enabled = enabled;
                                id = self.uuid.uuid4 (suc n);
                                drawn = refl;
                                replaced_at = refl;
                                issued_at = refl;
                                at = self.clock.now (suc (suc n));
                                now = self.clock.now (suc (suc (suc n)));
                                calls = (
                                  suc (suc (suc (suc n))),
                                  suc (suc (suc (suc (suc n)))),
                                  suc (suc (suc (suc (suc (suc n))))),
                                );
                                issued = known.1;
                                tables = rw known.1 (ap (λ (x : Database). x.refresh_tokens) h.0);
                                users = ap (λ (x : Database). x.users) h.0;
                              })
                          _ (issue_in_family self _ _ user _ _ (λ no e w h. tt)))))))

never_returns :
    (self : AuthService) (c d : Database) (n : ℕ) (r : RefreshTokenRecord)
    → Ensures (At c d n) (report_reuse self r) (λ a w. At c d n w) (λ e w. Unit)
unfolding report_reuse
never_returns self c d n r = ask_step _ _ _ _ (
    run_step _ _ _ _ (revoke_family-Gives c d _ r.family_id (self.clock.now n))
      (commit_try _ _ _ (λ no e w h. tt) λ exists. log_event_step _ _ _ _ (raises _ _ _ λ w h. tt)))

-- A token that was not both revoked and replaced goes on to the other checks.
check_reuse-Ensures :
    (self : AuthService) (c d : Database) (n : ℕ) (r : RefreshTokenRecord)
    → Ensures (At c d n) (check_reuse self r) (λ a w. At c d n w) (λ e w. Unit)
unfolding check_reuse pure
check_reuse-Ensures self c d n r = elim (Bool-cases (is_some r.revoked_at)) [
  | inr live ↦ rw live (record { at = λ w h. h })
  | inl revoked ↦ elim (Bool-cases (is_some r.replaced_by)) [
    | inr unused ↦ rw (revoked, unused) (record { at = λ w h. h })
    | inl used ↦ rw (revoked, used) (never_returns self c d n r)
  ]
]

refresh-Ensures :
    (self : AuthService) (c d : Database) (n : ℕ) (token : String)
    → IsConsistent d
    → Ensures
        (At c d n)
        (refresh self token)
        (λ tokens w.
          (r : RefreshTokenRecord) × IsPresented self d n token r
          × IsRotation self d (suc n) r tokens w)
        (λ e w. Unit)
unfolding refresh
refresh-Ensures self c d n token consistent =
    Ensures-bind _
      (λ r. given λ presented.
        Ensures-bind _
          (λ u.
            Ensures_map _ _ _ (λ tokens w h. (r, presented, h))
              (rotate-IsRotation self c d (suc n) consistent r))
          _ (check_reuse-Ensures self c d (suc n) r))
      _ (presented_record-IsPresented self c d n consistent token)

-- On consistent tables, a `refresh` that returns tokens was given a genuine token: its signature
-- and its hash are right, and the record it stands for is not revoked, has not expired at the time that
-- the clock gives right after the signature was verified, and is of a user that is there and enabled.
-- The committed tables have that record replaced by a new active one of
-- the same user and family, with the hash of the new refresh token, and are otherwise as before in
-- their tokens and users.
pub refresh-IsRotation :
    (self : AuthService) (w : World) (token : String) (tokens : AccessToken × RefreshToken)
    → IsConsistent w.db
    → (refresh self token w).0 ≡ ok tokens
    → (r : RefreshTokenRecord) × IsPresented self w.db w.asked token r
      × IsRotation self w.db (suc w.asked) r tokens (refresh self token w).1
refresh-IsRotation self w token tokens consistent e =
    Post-ok _ _ _ _
      ((refresh-Ensures self w.committed w.db w.asked token consistent).at w (refl, refl, refl)) e
