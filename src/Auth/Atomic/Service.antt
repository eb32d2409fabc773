-- ===== src/Auth/Atomic/Service.antt =====
-- A method of `AuthService` that raises has committed nothing, with the exceptions stated.
use ai_backend_foundation.Action.{Action, Outcome, gets, lift, ok, pure, raise, raised, ◌>>=◌}
use ai_backend_foundation.Action.Rules.{
  Ensures, Ensures-bind, Ensures_of_Keeps, Keeps, Keeps-raise_if, Post-raised,
}
use ai_backend_foundation.Auth.Atomic.{IsClean, Uncommitted}
use ai_backend_foundation.Auth.Atomic.Statements.{
  ask-Uncommitted, get_user_by_email-Uncommitted, get_user_by_id-Uncommitted,
  issue_tokens-Uncommitted, log_event-Uncommitted, mark_refresh_token_replaced-Uncommitted,
  or_invalid-Uncommitted, presented_record-Uncommitted, revoke_refresh_token-Uncommitted,
  revoke_refresh_token_family-Uncommitted, uncommitted_rules, uuid_of-Uncommitted,
}
use ai_backend_foundation.Auth.Domain.{
  Credentials, RefreshTokenRecord, UserAuthRecord, authenticated_user, refresh_reuse_detected_error,
}
use ai_backend_foundation.Auth.Persistence.{insert_user}
use ai_backend_foundation.Auth.Ports.{Claims}
use ai_backend_foundation.Auth.Rotation.Issue.{given}
use ai_backend_foundation.Auth.Service.{
  AuthService, check_reuse, login, logout, logout_verified, refresh, register, report_reuse,
  revoke_claimed, rotate, tenant_text,
}
use ai_backend_foundation.Database.{
  Database, UserRow, World, commit, log_event, refuse, replacement_exists, set_users,
}
use ai_backend_foundation.Prelude.{
  Bool-cases, String, [], all, arith, eq_iff, if◌then◌else◌, inl, inr, is_empty, is_some, none,
  refl, sym, ◌∙◌, ◌∷◌, ◌≡◌, ◌≢◌, ◌⊎◌,
}
use ai_backend_foundation.Shared.Errors.{Exception, app}
use ai_backend_foundation.Shared.Values.{get_claim, is_text, is_true}

-- What an exception comes with: unchanged committed tables, or a case of `E`.
abbrev CleanOr : Database → (Exception → Type 0) → Exception → World → Type 0
CleanOr d E e w = (w.committed ≡ d) ⊎ E e

module _ (d : Database) {A : Type 0} (Q : A → World → Type 0) (E : Exception → Type 0) where
  clean_step :
      {B : Type 0} (m : Action World B) (f : B → Action World A)
      → Keeps (Uncommitted d) m
      → ((b : B) → Ensures (Uncommitted d) (f b) Q (CleanOr d E))
      → Ensures (Uncommitted d) (m >>= f) Q (CleanOr d E)
  clean_step m f k c =
      Ensures-bind f c m (Ensures_of_Keeps (λ _. Uncommitted d) _ m k (λ b w h. h) (λ e w h. inl h))

  clean_last :
      (m : Action World A)
      → Keeps (Uncommitted d) m
      → ((a : A) (w : World) → Uncommitted d w → Q a w)
      → Ensures (Uncommitted d) m Q (CleanOr d E)
  clean_last m k q = Ensures_of_Keeps _ _ m k q (λ e w h. inl h)

commit-IsClean : (d : Database) (E : Exception → Type 0) → IsClean d E commit
unfolding commit
commit-IsClean d E = record { at = λ w h. ground arith }

-- A commit that succeeds loses what was known of the committed tables, and keeps any other fact.
commit-Ensures :
    (d : Database) (E : Exception → Type 0) (F : Type 0)
    → Ensures (λ w. F × (w.committed ≡ d)) commit (λ _ _. F) (CleanOr d E)
unfolding commit
commit-Ensures d E F = record {
  at = λ w h. elim (Bool-cases (all (replacement_exists w.db.refresh_tokens) w.db.refresh_tokens)) [
    | inl exists ↦ rw (exists, if◌then◌else◌) h.0
    | inr missing ↦ rw (missing, if◌then◌else◌) (inl h.1)
  ];
}

module _ (self : AuthService) (d : Database) where
  quiet : {A : Type 0} {m : Action World A} → Keeps (Uncommitted d) m → IsClean d (λ e. ⊥) m
  quiet k = clean_last d _ _ _ k (λ a w h. tt)

  login-IsClean : (creds : Credentials) → IsClean d (λ e. ⊥) (login self creds)
  unfolding login pure
  login-IsClean creds = clean_step d _ _ _ _ (get_user_by_email-Uncommitted d _) λ found.
      clean_step d _ _ _ _ (or_invalid-Uncommitted d _) λ user.
        clean_step d _ _ _ _ (Keeps-raise_if _ _) λ _.
          clean_step d _ _ _ _ (issue_tokens-Uncommitted d self _ _ _)
            λ tokens. Ensures-bind _ (λ _. record { at = λ w h. tt }) _ (commit-IsClean d _)

  abbrev IsReuse : Exception → Type 0
  IsReuse e = e ≡ app (refresh_reuse_detected_error none)

  report_reuse-Ensures :
      (r : RefreshTokenRecord)
      → Ensures (Uncommitted d) (report_reuse self r) (λ _. Uncommitted d) (CleanOr d IsReuse)
  unfolding report_reuse log_event raise ◌>>=◌
  report_reuse-Ensures r = clean_step d _ _ _ _ (ask-Uncommitted d _) λ now.
      clean_step d _ _ _ _ (revoke_refresh_token_family-Uncommitted d _ _)
        λ count. Ensures-bind _ (λ _. record { at = λ w h. inr refl }) _ (commit-IsClean d _)

  check_reuse-Ensures :
      (r : RefreshTokenRecord)
      → Ensures (Uncommitted d) (check_reuse self r) (λ _. Uncommitted d) (CleanOr d IsReuse)
  unfolding check_reuse pure
  check_reuse-Ensures r = elim (Bool-cases (is_some r.revoked_at)) [
    | inr live ↦ rw live (record { at = λ w h. h })
    | inl revoked ↦ elim (Bool-cases (is_some r.replaced_by)) [
      | inl replaced ↦ rw (revoked, replaced) (report_reuse-Ensures r)
      | inr unused ↦ rw (revoked, unused) (record { at = λ w h. h })
    ]
  ]

  pub rotate-IsClean :
      (r : RefreshTokenRecord) (E : Exception → Type 0) → IsClean d E (rotate self r)
  unfolding rotate pure
  rotate-IsClean r E = clean_step d _ _ _ _ (Keeps-raise_if _ _) λ _.
      clean_step d _ _ _ _ (ask-Uncommitted d _) λ checked_at.
        clean_step d _ _ _ _ (Keeps-raise_if _ _) λ _.
          clean_step d _ _ _ _ (get_user_by_id-Uncommitted d _) λ found.
            clean_step d _ _ _ _ (or_invalid-Uncommitted d _) λ user.
              clean_step d _ _ _ _ (ask-Uncommitted d _) λ new.
                clean_step d _ _ _ _ (ask-Uncommitted d _) λ now.
                  clean_step d _ _ _ _ (mark_refresh_token_replaced-Uncommitted d _ _ _) λ marked.
                    clean_step d _ _ _ _ (issue_tokens-Uncommitted d self _ _ _) λ tokens.
                      Ensures-bind _ (λ _. record { at = λ w h. tt }) _ (commit-IsClean d _)

  refresh-IsClean : (token : String) → IsClean d IsReuse (refresh self token)
  unfolding refresh
  refresh-IsClean token =
      clean_step d _ _ _ _ (presented_record-Uncommitted d self token)
        λ r. Ensures-bind _ (λ _. rotate-IsClean r IsReuse) _ (check_reuse-Ensures r)

  revoke_claimed-IsClean : (claims : Claims) → IsClean d (λ e. ⊥) (revoke_claimed self claims)
  unfolding revoke_claimed
  revoke_claimed-IsClean claims = elim (Bool-cases (is_text "refresh" (get_claim "typ" claims))) [
    | inr other_type ↦ rw other_type (quiet (log_event-Uncommitted d _))
    | inl refresh_type ↦ elim (Bool-cases (is_true (get_claim "jti" claims))) [
      | inr missing ↦ rw (refresh_type, missing) (quiet (log_event-Uncommitted d _))
      | inl given ↦
          rw (refresh_type, given)
            (clean_step d _ _ _ _ (uuid_of-Uncommitted d self _) λ id.
              clean_step d _ _ _ _ (ask-Uncommitted d _) λ now.
                clean_step d _ _ _ _ (revoke_refresh_token-Uncommitted d _ _)
                  λ count. commit-IsClean d _)
    ]
  ]

  logout_verified-IsClean : (r : Outcome Claims) → IsClean d (λ e. ⊥) (logout_verified self r)
  unfolding logout_verified
  logout_verified-IsClean (ok claims) = revoke_claimed-IsClean claims
  logout_verified-IsClean (raised e) = quiet (search uncommitted_rules)

  logout-IsClean : (token : String) → IsClean d (λ e. ⊥) (logout self token)
  unfolding logout
  logout-IsClean token = clean_step d _ _ _ _ (ask-Uncommitted d _) λ r. logout_verified-IsClean r

  insert_user-Ensures :
      (row : UserRow)
      → Ensures
          (Uncommitted d)
          (insert_user row)
          (λ (u : UserAuthRecord) w. (u.email ≡ row.email) × (w.committed ≡ d))
          (CleanOr d (λ e. row.email ≡ ""))
  unfolding insert_user refuse gets set_users pure ◌>>=◌
  insert_user-Ensures row = record { at = λ w h. ground arith }

  register-IsClean :
      (email password : String) → IsClean d (λ e. email ≡ "") (register self email password)
  unfolding register lift authenticated_user
  register-IsClean email password =
      clean_step d _ _ _ _ (get_user_by_email-Uncommitted d _) λ found.
        clean_step d _ _ _ _ (Keeps-raise_if _ _) λ _.
          clean_step d _ _ _ _ (ask-Uncommitted d _) λ id.
            clean_step d _ _ _ _ (ask-Uncommitted d _) λ hash.
              clean_step d _ _ _ _ (ask-Uncommitted d _) λ now.
                Ensures-bind _
                  (λ user_record.
                    Ensures-bind _ (λ _. last_check user_record) _ (commit-Ensures d _ _))
                  _ (insert_user-Ensures _)
    where
      last_check :
          (u : UserAuthRecord)
          → Ensures
              (λ _. u.email ≡ email)
              (lift (
                authenticated_user
                  (self.uuid.str u.id)
                  u.email
                  (tenant_text self u.tenant_id)
                  ("user" ∷ [])))
              (λ _ _. Unit)
              (CleanOr d (λ _. email ≡ ""))
      last_check u = record {
        at = λ w h. elim (Bool-cases (is_empty u.email)) [
          | inl empty ↦ rw (empty, if◌then◌else◌) (inr (sym h ∙ (eq_iff _ _).0 empty))
          | inr full ↦ rw (full, if◌then◌else◌) tt
        ];
      }

-- The committed tables after a clean action that raised something else than its cases.
left_alone :
    {A : Type 0} (E : Exception → Type 0) (m : Action World A) (w : World) {e : Exception}
    → IsClean w.committed E m
    → (m w).0 ≡ raised e
    → ¬ E e
    → (m w).1.committed ≡ w.committed
left_alone E m w c h other = elim (Post-raised _ _ _ _ (c.at w refl) h) [
  | inl same ↦ same
  | inr case ↦ absurd (other case)
]

module _ (self : AuthService) (w : World) {e : Exception} where
  -- A login that raises leaves the committed tables as they were.
  pub login-atomic :
      (creds : Credentials)
      → (login self creds w).0 ≡ raised e
      → (login self creds w).1.committed ≡ w.committed
  login-atomic creds h = left_alone _ _ w (login-IsClean self w.committed creds) h (λ x. x)

  -- A refresh that raises anything but `RefreshReuseDetectedError` leaves the committed tables as
  -- they were: a rotation is never half done.
  pub refresh-atomic :
      (token : String)
      → (refresh self token w).0 ≡ raised e
      → e ≢ app (refresh_reuse_detected_error none)
      → (refresh self token w).1.committed ≡ w.committed
  refresh-atomic token h other = left_alone _ _ w (refresh-IsClean self w.committed token) h other

  -- A logout that raises leaves the committed tables as they were.
  pub logout-atomic :
      (token : String)
      → (logout self token w).0 ≡ raised e
      → (logout self token w).1.committed ≡ w.committed
  logout-atomic token h = left_alone _ _ w (logout-IsClean self w.committed token) h (λ x. x)

  -- A registration with a non-empty email that raises leaves the committed tables as they were.
  pub register-atomic :
      (email password : String)
      → email ≢ ""
      → (register self email password w).0 ≡ raised e
      → (register self email password w).1.committed ≡ w.committed
  register-atomic email password full h =
      left_alone _ _ w (register-IsClean self w.committed email password) h full
