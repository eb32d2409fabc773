-- ===== src/Auth/Registration.antt =====
-- `register` of app/auth/service.py, and a login with what was registered.
use ai_backend_foundation.Action.{Outcome, lift, ok}
use ai_backend_foundation.Action.Rules.{Ensures, always_returns}
use ai_backend_foundation.Auth.Argon2Hasher.{
  Argon2Hasher, argon2_password_hasher, argon2_password_hasher-verify,
}
use ai_backend_foundation.Auth.Domain.{
  AccessToken, AuthenticatedUser, RefreshToken, authenticated_user,
}
use ai_backend_foundation.Auth.Invariant.{IsConsistent}
use ai_backend_foundation.Auth.Invariant.Rows.{one_user_by_email}
use ai_backend_foundation.Auth.Invariant.Statements.{insert_user-IsConsistent}
use ai_backend_foundation.Auth.Login.{login-Ensures, login_row, user_by_email}
use ai_backend_foundation.Auth.Persistence.{clashes, user_to_domain}
use ai_backend_foundation.Auth.Persistence.Steps.{get_user_by_email-Gives}
use ai_backend_foundation.Auth.Persistence.Writes.{AcceptsToken, AcceptsUser, insert_user-Gives}
use ai_backend_foundation.Auth.Rotation.Issue.{add_token, issued_pair}
use ai_backend_foundation.Auth.Service.{AuthService, login, register}
use ai_backend_foundation.Database.{Database, RefreshTokenRow, UserRow, World, too_long}
use ai_backend_foundation.Database.Steps.{
  At, Replaced, ask_step, commit_step, raise_if_step, run_step,
}
use ai_backend_foundation.Prelude.{
  ==_refl, String, [], any, ap, arith, eq_refl, false, is_empty, is_some, none, refl, some, suc,
  true, ℕ, ◌∙◌, ◌∷◌, ◌≡◌,
}

-- The row of a registration whose first question to the surroundings is the `n`-th.
abbrev pub registered_row : AuthService → ℕ → String → String → UserRow
registered_row self n email password = record {
  id = self.uuid.uuid4 n;
  email = email;
  password_hash = self.password_hasher.hash (suc n) password;
  created_at = self.clock.now (suc (suc n));
  tenant_id = none;
  disabled = false;
}

abbrev pub registered_user : AuthService → UserRow → AuthenticatedUser
registered_user self row = record {
  user_id = self.uuid.str row.id;
  email = row.email;
  tenant_id = "";
  scopes = "user" ∷ [];
}

abbrev pub add_user : Database → UserRow → Database
add_user d row = record d { users = row ∷ d.users }

lift_returns :
    {A : Type 0} {c d : Database} {n : ℕ} (Q : A → World → Type 0) (r : Outcome A) (a : A)
    → r ≡ ok a
    → ((w : World) → At c d n w → Q a w)
    → Ensures (At c d n) (lift r) Q (λ e w. ⊥)
unfolding lift
lift_returns Q r a h q = record { at = λ w at. rw h (q w at) }

unknown_email :
    (email : String) (d : Database)
    → user_by_email email d ≡ none
    → is_some (user_by_email email d) ≡ false
unknown_email email d h = rw h refl

module _ (self : AuthService) (c d : Database) (n : ℕ) (consistent : IsConsistent d)
    (email password : String) where
  abbrev row : UserRow
  row = registered_row self n email password

  register-Ensures :
      user_by_email email d ≡ none
      → Replaced d
      → AcceptsUser row d
      → is_empty email ≡ false
      → Ensures
          (At c d n)
          (register self email password)
          (λ user w.
            (user ≡ registered_user self row)
            × At (add_user d row) (add_user d row) (suc (suc (suc n))) w)
          (λ e w. ⊥)
  unfolding register authenticated_user
  register-Ensures unknown replaced accepts filled =
      run_step _ _ _ _ (get_user_by_email-Gives c d _ email (one_user_by_email d consistent email))
        (raise_if_step _ _ _ _ _ (λ there w h. cc (there, unknown_email email d unknown))
          λ _. ask_step _ _ _ _ (
            ask_step _ _ _ _ (
              ask_step _ _ _ _ (
                run_step _ _ _ _ (insert_user-Gives c d _ row accepts) (
                  commit_step _ _ _ replaced
                    (lift_returns _ _ _ (rw filled refl) λ w h. (refl, h)))))))

-- On consistent tables in which every replacement exists, when no user has the email: a registration
-- whose row the tables accept returns the new user and commits that one row, if the email is not empty.
pub register-returns :
    (self : AuthService) (w : World) (email password : String)
    → IsConsistent w.db
    → Replaced w.db
    → user_by_email email w.db ≡ none
    → AcceptsUser (registered_row self w.asked email password) w.db
    → is_empty email ≡ false
    → (let new = registered_row self w.asked email password in
        ((register self email password w).0 ≡ ok (registered_user self new))
        × At
            (add_user w.db new)
            (add_user w.db new)
            (suc (suc (suc w.asked)))
            (register self email password w).1)
register-returns self w email password consistent replaced unknown accepts filled =
    let (user, made, known) =
      always_returns _ (λ e w. ⊥) _ _
        ((register-Ensures self w.committed w.db w.asked consistent email password unknown replaced
            accepts filled).at
          w (refl, refl, refl)) in
    (made ∙ ap ok known.0, known.1)

module _ (self : AuthService) (w : World) (email password : String) where
  abbrev new_row : UserRow
  new_row = registered_row self w.asked email password

  abbrev after : World
  after = (register self email password w).1

  -- The row of the refresh token of the login that follows.
  abbrev pub first_token : RefreshTokenRow
  first_token = login_row self (suc (suc (suc w.asked))) (user_to_domain new_row)

  -- The tokens of a login of the new user whose first question is the `n`-th.
  abbrev pub first_pair : ℕ → AccessToken × RefreshToken
  first_pair n =
      issued_pair self (user_to_domain new_row) (self.uuid.uuid4 (suc (suc n))) (self.clock.now n)
        (suc (suc (suc n)))

  new_user_found : user_by_email email (add_user w.db new_row) ≡ some (user_to_domain new_row)
  new_user_found = rw (eq_refl email) refl

  first_token-AcceptsToken :
      too_long first_token.hash ≡ false
      → any (clashes first_token) w.db.refresh_tokens ≡ false
      → AcceptsToken first_token (add_user w.db new_row)
  first_token-AcceptsToken short apart = (short, apart, ground (arith, ==_refl new_row.id))

  -- With the hasher of argon2: after a registration on consistent tables in which every replacement
  -- exists, with an email that is new and not empty and a row that the tables accept, a login with the
  -- same email and password returns tokens for the new user and commits one row for them, if the hash of the refresh
  -- token is not too long and its row clashes with no other.
  pub register-login :
      (argon2 : Argon2Hasher)
      → self.password_hasher ≡ argon2_password_hasher argon2
      → IsConsistent w.db
      → Replaced w.db
      → user_by_email email w.db ≡ none
      → AcceptsUser new_row w.db
      → is_empty email ≡ false
      → too_long first_token.hash ≡ false
      → any (clashes first_token) w.db.refresh_tokens ≡ false
      → ((login self (record { username = email; password = password }) after).0
          ≡ ok (first_pair (suc (suc (suc w.asked)))))
        × ((login self (record { username = email; password = password }) after).1.committed
            ≡ add_token (add_user w.db new_row) first_token)
  register-login argon2 adapter consistent replaced unknown accepts filled short apart =
      let (made, known) =
        register-returns self w email password consistent replaced unknown accepts filled in
      let right : self.password_hasher.verify password new_row.password_hash ≡ true =
        rw adapter (argon2_password_hasher-verify argon2 (suc w.asked) password) in
      let in_all = insert_user-IsConsistent new_row w.db accepts.2 consistent in
      let done =
        login-Ensures self (add_user w.db new_row) (add_user w.db new_row) (suc (suc (suc w.asked)))
          in_all (record { username = email; password = password }) (user_to_domain new_row)
          replaced new_user_found refl right (first_token-AcceptsToken short apart) in
      let (tokens, gave, facts) = always_returns _ (λ e w. ⊥) _ _ (done.at after known) in
      (gave ∙ ap ok facts.0, facts.1)
