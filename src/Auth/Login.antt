-- ===== src/Auth/Login.antt =====
-- `login` of app/auth/service.py: whom it lets in, and that nothing else tells a caller why not.
use mathlib.Core.Path.{subst}
use mathlib.Core.Bool.{false≢true}
use ai_backend_foundation.Action.{ok, pure, raise_if, raised, ◌>>=◌, ◌>>◌}
use ai_backend_foundation.Action.Rules.{Ensures, Ensures-bind, always_raises, always_returns}
use ai_backend_foundation.Auth.Domain.{Credentials, UserAuthRecord, invalid_credentials_error}
use ai_backend_foundation.Auth.Invariant.{IsConsistent}
use ai_backend_foundation.Auth.Invariant.Rows.{one_user_by_email}
use ai_backend_foundation.Auth.Persistence.{option_map, user_to_domain}
use ai_backend_foundation.Auth.Persistence.Steps.{get_user_by_email-Gives}
use ai_backend_foundation.Auth.Persistence.Writes.{AcceptsToken}
use ai_backend_foundation.Auth.Rotation.Issue.{add_token, given, issue_new, issued_pair, issued_row}
use ai_backend_foundation.Auth.Rotation.Success.{or_invalid_step}
use ai_backend_foundation.Auth.Service.{AuthService, issue_tokens, login}
use ai_backend_foundation.Database.{
  Database, RefreshTokenRow, UserRow, World, commit, replacement_exists,
}
use ai_backend_foundation.Database.Steps.{
  At, Replaced, commit_step, raise_if_step, raises, returns, run_step,
}
use ai_backend_foundation.Prelude.{
  List, Option, Option-cases, String, [], all, ap, arith, false, first, inl, inr, none, not, refl,
  select, some, some_eq, str_eq, suc, sym, true, ℕ, ◌∙◌, ◌∷◌, ◌≡◌,
}
use ai_backend_foundation.Shared.Errors.{app}

-- The user that a login by email finds.
abbrev pub user_by_email : String → Database → Option UserAuthRecord
user_by_email email d =
    option_map user_to_domain (first (select (λ (u : UserRow). str_eq u.email email) d.users))

-- The row of a login whose first question to the surroundings is the `n`-th.
abbrev pub login_row : AuthService → ℕ → UserAuthRecord → RefreshTokenRow
login_row self n user =
    issued_row self user (self.uuid.uuid4 (suc (suc n))) (self.clock.now n) (suc (suc (suc n)))
      (self.uuid.uuid4 (suc n))

has_token-cons :
    (row : RefreshTokenRow) (all_rows rows : List RefreshTokenRow)
    → all (replacement_exists all_rows) rows ≡ true
    → all (replacement_exists (row ∷ all_rows)) rows ≡ true
has_token-cons row all_rows [] h = refl
has_token-cons row all_rows (x ∷ rows) h =
    let rest : all (replacement_exists (row ∷ all_rows)) rows ≡ true =
      has_token-cons row all_rows rows (ground arith) in
    elim (Option-cases x.replaced_by) [
      | inl none_yet ↦ ground (arith, rest)
      | inr (other, e) ↦ ground (arith, rest)
    ]

module _ (self : AuthService) (c d : Database) (n : ℕ) (consistent : IsConsistent d)
    (creds : Credentials) where
  pub login-Ensures :
      (user : UserAuthRecord)
      → Replaced d
      → user_by_email creds.username d ≡ some user
      → user.disabled ≡ false
      → self.password_hasher.verify creds.password user.password_hash ≡ true
      → AcceptsToken (login_row self n user) d
      → Ensures
          (At c d n)
          (login self creds)
          (λ tokens w.
            (tokens
              ≡ issued_pair self user
                  (self.uuid.uuid4 (suc (suc n)))
                  (self.clock.now n)
                  (suc (suc (suc n))))
            × (w.committed ≡ add_token d (login_row self n user)))
          (λ e w. ⊥)
  unfolding login
  login-Ensures user replaced found enabled right accepts =
      run_step _ _ _ _
        (get_user_by_email-Gives c d _ creds.username
          (one_user_by_email d consistent creds.username))
        (or_invalid_step _ _ _ _ (λ off w h. cc (off user found, enabled))
          λ u found_user on.
            let same : user ≡ u = some_eq (sym found ∙ found_user) in
            subst
              (λ v.
                Ensures (At c d n)
                  (raise_if (not (self.password_hasher.verify creds.password v.password_hash))
                      (app (invalid_credentials_error none))
                    >>= λ _. issue_tokens self v none none >>= λ tokens. commit >> pure tokens)
                  (λ tokens w.
                    (tokens
                      ≡ issued_pair self user (self.uuid.uuid4 (suc (suc n))) (self.clock.now n)
                          (suc (suc (suc n))))
                    × (w.committed ≡ add_token d (login_row self n user)))
                  (λ e w. ⊥))
              same
              (raise_if_step _ _ _ _ _ (λ b w h. ground (arith, right))
                λ _.
                  Ensures-bind _
                    (λ tokens. given λ known.
                      commit_step _ _ _
                        (has_token-cons (login_row self n user) d.refresh_tokens d.refresh_tokens
                          replaced)
                        (returns _ _ _ λ w h. (known.1, h.0)))
                    _ (issue_new self n _ user (λ no e w h. no accepts))))

  login_refused-Ensures :
      ((user : UserAuthRecord)
        → user_by_email creds.username d ≡ some user
        → user.disabled ≡ false
        → self.password_hasher.verify creds.password user.password_hash ≡ false)
      → Ensures
          (At c d n)
          (login self creds)
          (λ tokens w. ⊥)
          (λ e w. (e ≡ app (invalid_credentials_error none)) × (w.committed ≡ c))
  unfolding login
  login_refused-Ensures wrong =
      run_step _ _ _ _
        (get_user_by_email-Gives c d _ creds.username
          (one_user_by_email d consistent creds.username))
        (or_invalid_step _ _ _ _ (λ off w h. (refl, h))
          λ u found on.
            raise_if_step _ _ _ _ _ (λ b w h. (refl, h.0))
              λ right. absurd (false≢true (sym (wrong u found on) ∙ ground arith)))

-- On consistent tables in which every replacement exists: a login with the email and the password
-- of an enabled user returns: it issues a pair of tokens for that user and commits one new row, in
-- a family of its own, if the tables accept that row.
pub login-returns :
    (self : AuthService) (w : World) (creds : Credentials) (user : UserAuthRecord)
    → IsConsistent w.db
    → Replaced w.db
    → user_by_email creds.username w.db ≡ some user
    → user.disabled ≡ false
    → self.password_hasher.verify creds.password user.password_hash ≡ true
    → AcceptsToken (login_row self w.asked user) w.db
    → ((login self creds w).0
        ≡ ok (
            issued_pair self user
              (self.uuid.uuid4 (suc (suc w.asked)))
              (self.clock.now w.asked)
              (suc (suc (suc w.asked)))))
      × ((login self creds w).1.committed ≡ add_token w.db (login_row self w.asked user))
login-returns self w creds user consistent replaced found enabled right accepts =
    let (tokens, returned, known) =
      always_returns _ (λ e w. ⊥) _ _
        ((login-Ensures self w.committed w.db w.asked consistent creds user replaced found enabled
            right accepts).at
          w (refl, refl, refl)) in
    (returned ∙ ap ok known.0, known.1)

-- On consistent tables, a login fails with one and the same error, which has no detail, whether no
-- user has the email, the user is disabled, or the password is wrong; and it leaves the committed
-- tables as they were.
pub login-refuses :
    (self : AuthService) (w : World) (creds : Credentials)
    → IsConsistent w.db
    → ((user : UserAuthRecord)
        → user_by_email creds.username w.db ≡ some user
        → user.disabled ≡ false
        → self.password_hasher.verify creds.password user.password_hash ≡ false)
    → ((login self creds w).0 ≡ raised (app (invalid_credentials_error none)))
      × ((login self creds w).1.committed ≡ w.committed)
login-refuses self w creds consistent wrong =
    let (e, raises, facts) =
      always_raises (λ a s. ⊥) _ _ _
        ((login_refused-Ensures self w.committed w.db w.asked consistent creds wrong).at w
          (refl, refl, refl)) in
    (raises ∙ ap raised facts.0, facts.1)
