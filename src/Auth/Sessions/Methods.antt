-- ===== src/Auth/Sessions/Methods.antt =====
-- What each method of app/auth/service.py does to the committed refresh tokens: nothing, or one step.
use mathlib.Core.Path.{subst}
use ai_backend_foundation.Action.{Action, Outcome, ok, raise, raised, ◌>>=◌}
use ai_backend_foundation.Action.Rules.{Ensures, Ensures-bind}
use ai_backend_foundation.Auth.Domain.{Credentials}
use ai_backend_foundation.Auth.Invariant.{IsConsistent}
use ai_backend_foundation.Auth.Invariant.Rows.{one_token_by_id, one_user_by_email}
use ai_backend_foundation.Auth.Persistence.Steps.{get_user_by_email-Gives}
use ai_backend_foundation.Auth.Persistence.Writes.{revoke_token-Gives}
use ai_backend_foundation.Auth.Ports.{Claims}
use ai_backend_foundation.Auth.Rotation.Issue.{given, issue_new}
use ai_backend_foundation.Auth.Rotation.Presented.{uuid_step}
use ai_backend_foundation.Auth.Rotation.Success.{or_invalid_step}
use ai_backend_foundation.Auth.Service.{
  AuthService, is_authentication_error, login, logout, logout_verified, revoke_claimed,
}
use ai_backend_foundation.Auth.Sessions.{TokenStep, issued, revoked_token}
use ai_backend_foundation.Database.{Database, World, commit, log_event, replacement_exists}
use ai_backend_foundation.Database.Steps.{
  At, ask_step, commit_try, raise_if_step, returns, run_step,
}
use ai_backend_foundation.Prelude.{
  Bool-cases, String, all, ap, if◌then◌else◌, inl, inr, refl, suc, sym, ℕ, ◌≡◌, ◌⊎◌,
}
use ai_backend_foundation.Shared.Values.{get_claim, is_text, is_true}

-- From the tables `d` the committed tokens are as before, or one step further.
abbrev pub Refined : Database → World → Type 0
Refined d w =
    (w.committed.refresh_tokens ≡ d.refresh_tokens)
    ⊎ TokenStep d.refresh_tokens w.committed.refresh_tokens

module _ (self : AuthService) (d : Database) where
  pub unchanged : (w : World) → w.committed ≡ d → Refined d w
  unchanged w h = inl (ap (λ x. x.refresh_tokens) h)

  pub stepped :
      (d' : Database) (w : World)
      → TokenStep d.refresh_tokens d'.refresh_tokens
      → w.committed ≡ d'
      → Refined d w
  stepped d' w step h = inr (subst (λ x. TokenStep d.refresh_tokens x.refresh_tokens) (sym h) step)

  abbrev pub IsRefined : {A : Type 0} → ℕ → Action World A → Type 0
  IsRefined n m = Ensures (At d d n) m (λ a w. Refined d w) (λ e w. Refined d w)

  pub login-IsRefined :
      (n : ℕ) (creds : Credentials) → IsConsistent d → IsRefined n (login self creds)
  unfolding login
  login-IsRefined n creds consistent =
      run_step _ _ _ _
        (get_user_by_email-Gives d d _ creds.username
          (one_user_by_email d consistent creds.username))
        (or_invalid_step _ _ _ _ (λ off w h. unchanged w h)
          λ user found enabled.
            raise_if_step _ _ _ _ _ (λ b w h. unchanged w h.0)
              λ right.
                Ensures-bind _
                  (λ tokens. given λ known.
                    commit_try _ _ _ (λ no e w h. unchanged w h)
                      λ exists.
                        returns _ _ _
                          λ w h. stepped _ w (issued _ d.refresh_tokens (refl, refl) known.0.1) h.0)
                  _ (issue_new self n _ user (λ no e w h. unchanged w h)))

  commit_last :
      (d' : Database) (n : ℕ)
      → TokenStep d.refresh_tokens d'.refresh_tokens
      → Ensures (At d d' n) commit (λ a w. Refined d w) (λ e w. Refined d w)
  unfolding commit
  commit_last d' n step = record {
    at = λ w h.
        elim (Bool-cases (all (replacement_exists w.db.refresh_tokens) w.db.refresh_tokens)) [
          | inl exists ↦
              rw (exists, if◌then◌else◌) (stepped d' (record w { committed = w.db }) step h.1)
          | inr missing ↦ rw (missing, if◌then◌else◌) (unchanged w h.0)
        ];
  }

  pub log_last : (n : ℕ) (event : String) → IsRefined n (log_event event)
  unfolding log_event
  log_last n event = record { at = λ w h. unchanged w h.0 }

  revoke_claimed-IsRefined :
      (n : ℕ) (claims : Claims) → IsConsistent d → IsRefined n (revoke_claimed self claims)
  unfolding revoke_claimed
  revoke_claimed-IsRefined n claims consistent =
      elim (Bool-cases (is_text "refresh" (get_claim "typ" claims))) [
        | inr other_type ↦ rw other_type (log_last n _)
        | inl refresh_type ↦ elim (Bool-cases (is_true (get_claim "jti" claims))) [
          | inr missing ↦ rw (refresh_type, missing) (log_last n _)
          | inl there ↦
              rw (refresh_type, there)
                (uuid_step _ _ self _ _ (λ no e w h. unchanged w h)
                  λ s id named parsed. ask_step _ _ _ _ (
                    run_step _ _ _ _
                      (revoke_token-Gives d d _ id (self.clock.now n)
                        (one_token_by_id d consistent id))
                      (commit_last _ _ (revoked_token id (self.clock.now n) d.refresh_tokens))))
        ]
      ]

  logout_verified-IsRefined :
      (n : ℕ) (r : Outcome Claims) → IsConsistent d → IsRefined n (logout_verified self r)
  unfolding logout_verified log_event raise ◌>>=◌
  logout_verified-IsRefined n (ok claims) consistent = revoke_claimed-IsRefined n claims consistent
  logout_verified-IsRefined n (raised e) consistent =
      elim (Bool-cases (is_authentication_error e)) [
        | inl auth ↦ rw auth (record { at = λ w h. unchanged w h.0 })
        | inr fault ↦ rw fault (record { at = λ w h. unchanged w h.0 })
      ]

  pub logout-IsRefined : (n : ℕ) (token : String) → IsConsistent d → IsRefined n (logout self token)
  unfolding logout
  logout-IsRefined n token consistent =
      ask_step _ _ _ _ (logout_verified-IsRefined (suc n) _ consistent)
