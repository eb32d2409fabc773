-- ===== src/Auth/Sessions/Refinement.antt =====
-- Every request to app/auth/api.py is at most one step of the state machine of the refresh tokens.
use mathlib.Core.Path.{subst}
use ai_backend_foundation.Action.{Action, Outcome, gets, ok, pure, raised, ◌>>=◌}
use ai_backend_foundation.Action.Rules.{
  Ensures, Ensures-bind, Ensures_of_Keeps, Keeps, Post, keeps_rules,
}
use ai_backend_foundation.Auth.Api.{
  Request, handle, login_request, logout_request, no_content, refresh_request, register_request,
  reply_tokens, run,
}
use ai_backend_foundation.Auth.Api.Sequence.{run-IsConsistent}
use ai_backend_foundation.Auth.Domain.{AccessToken, RefreshToken, RefreshTokenRecord}
use ai_backend_foundation.Auth.Invariant.{IsConsistent}
use ai_backend_foundation.Auth.Persistence.{get_user_by_email, insert_user, scalar_one_or_none}
use ai_backend_foundation.Auth.Rotation.{IsPresented}
use ai_backend_foundation.Auth.Rotation.Locked.{revoked_family-refused}
use ai_backend_foundation.Auth.Rotation.Reuse.{FamilyRevoked}
use ai_backend_foundation.Auth.Service.{AuthService, refresh, register}
use ai_backend_foundation.Auth.Sessions.{IsLocked, TokenStep, TokenStep-IsLocked}
use ai_backend_foundation.Auth.Sessions.Methods.{Refined, login-IsRefined, logout-IsRefined}
use ai_backend_foundation.Auth.Sessions.Refresh.{refresh-IsRefined}
use ai_backend_foundation.Database.{
  Database, RefreshTokenRow, UserRow, World, ask, commit, refuse, replacement_exists, set_users,
  with_session,
}
use ai_backend_foundation.Database.Steps.{At}
use ai_backend_foundation.Prelude.{
  Bool-cases, List, String, [], all, ap, arith, if◌then◌else◌, inl, inr, refl, sym, ℕ, ◌∷◌, ◌≡◌,
  ◌≢◌, ◌⊎◌,
}
use ai_backend_foundation.Shared.Types.{Uuid}

-- The tokens of both the committed tables and the session are `rows`.
abbrev SameTokens : List RefreshTokenRow → World → Type 0
SameTokens rows w = (w.committed.refresh_tokens ≡ rows) × (w.db.refresh_tokens ≡ rows)

module _ (rows : List RefreshTokenRow) where
  ask-SameTokens : {A : Type 0} (f : ℕ → A) → Keeps (SameTokens rows) (ask f)
  unfolding ask
  ask-SameTokens f = record { at = λ w h. h }

  commit-SameTokens : Keeps (SameTokens rows) commit
  unfolding commit
  commit-SameTokens = record {
    at = λ w h.
        elim (Bool-cases (all (replacement_exists w.db.refresh_tokens) w.db.refresh_tokens)) [
          | inl exists ↦ rw (exists, if◌then◌else◌) (h.1, h.1)
          | inr missing ↦ rw (missing, if◌then◌else◌) (h.0, h.0)
        ];
  }

  scalar-SameTokens :
      {A : Type 0} (found : List A) → Keeps (SameTokens rows) (scalar_one_or_none found)
  unfolding scalar_one_or_none
  scalar-SameTokens [] = search keeps_rules
  scalar-SameTokens (x ∷ []) = search keeps_rules
  scalar-SameTokens (x ∷ y ∷ found) = search keeps_rules

  get_user_by_email-SameTokens :
      (email : String) → Keeps (SameTokens rows) (get_user_by_email email)
  unfolding get_user_by_email
  get_user_by_email-SameTokens email = search (keeps_rules, scalar-SameTokens)

  insert_user-SameTokens : (row : UserRow) → Keeps (SameTokens rows) (insert_user row)
  unfolding insert_user refuse set_users gets pure ◌>>=◌
  insert_user-SameTokens row = record { at = λ w h. ground (arith, h) }

  register-SameTokens :
      (self : AuthService) (email password : String)
      → Keeps (SameTokens rows) (register self email password)
  unfolding register
  register-SameTokens self email password =
      search
        (
          keeps_rules, ask-SameTokens, commit-SameTokens, get_user_by_email-SameTokens,
          insert_user-SameTokens,
        )
        depth 12

  register_request-SameTokens :
      (self : AuthService) (email password : String)
      → Keeps (SameTokens rows) (handle self (register_request email password))
  unfolding handle
  register_request-SameTokens self email password = search (keeps_rules, register-SameTokens)

module _ (self : AuthService) (d : Database) (consistent : IsConsistent d) where
  reply_step :
      {P : World → Type 0} (m : Action World (AccessToken × RefreshToken))
      → Ensures P m (λ a w. Refined d w) (λ e w. Refined d w)
      → Ensures P
          (m >>= λ tokens. reply_tokens self tokens)
          (λ a w. Refined d w)
          (λ e w. Refined d w)
  unfolding reply_tokens ask pure ◌>>=◌
  reply_step m k = Ensures-bind _ (λ tokens. record { at = λ w h. h }) m k

  no_content_step : Ensures (Refined d) (pure no_content) (λ a w. Refined d w) (λ e w. Refined d w)
  unfolding pure
  no_content_step = record { at = λ w h. h }

  handle-IsRefined :
      (n : ℕ) (request : Request)
      → Ensures (At d d n) (handle self request) (λ a w. Refined d w) (λ e w. Refined d w)
  unfolding handle
  handle-IsRefined n (register_request email password) = record {
    at = λ w h.
        (Ensures_of_Keeps (λ a w. Refined d w) (λ e w. Refined d w) _
            (register_request-SameTokens d.refresh_tokens self email password) (λ a w h. inl h.0)
            (λ e w h. inl h.0)).at
          w (ap (λ x. x.refresh_tokens) h.0, ap (λ x. x.refresh_tokens) h.1);
  }
  handle-IsRefined n (login_request username password) =
      reply_step _ (login-IsRefined self d n _ consistent)
  handle-IsRefined n (refresh_request token) =
      reply_step _ (refresh-IsRefined self d consistent n token)
  handle-IsRefined n (logout_request token) =
      Ensures-bind _ (λ u. no_content_step) _ (logout-IsRefined self d n token consistent)

either_way :
    {A : Type 0} (R : World → Type 0) (r : Outcome A) (w : World)
    → Post (λ a w. R w) (λ e w. R w) r w
    → R w
either_way R (ok a) w h = h
either_way R (raised e) w h = h

-- Some steps of the state machine, one after another.
pub data TokenSteps : List RefreshTokenRow → List RefreshTokenRow → Type 0 where
  done : (rows : List RefreshTokenRow) → TokenSteps rows rows
  then_more :
      (before rows after : List RefreshTokenRow)
      → TokenStep before rows
      → TokenSteps rows after
      → TokenSteps before after

module _ (self : AuthService) where
  -- From consistent committed tables, a request, whether it succeeds or fails, leaves the committed
  -- tokens as they were or takes them one step: the issue of a token, a rotation, or the revocation of
  -- one token or of a family.
  pub session-TokenStep :
      (request : Request) (w : World)
      → IsConsistent w.committed
      → (let rows = (with_session (handle self request) w).1.committed.refresh_tokens in
          (rows ≡ w.committed.refresh_tokens) ⊎ TokenStep w.committed.refresh_tokens rows)
  unfolding with_session
  session-TokenStep request w consistent =
      let opened = record w { db = w.committed } in
      either_way (Refined w.committed) _ _ (
        (handle-IsRefined self w.committed consistent w.asked request).at opened (refl, refl, refl))

  step_first :
      (before rows after : List RefreshTokenRow)
      → (rows ≡ before) ⊎ TokenStep before rows
      → TokenSteps rows after
      → TokenSteps before after
  step_first before rows after (inl same) more = subst (λ x. TokenSteps x after) same more
  step_first before rows after (inr step) more = then_more before rows after step more

  -- From consistent committed tables, every sequence of registrations, logins, refreshes and logouts
  -- takes the committed tokens along steps of the state machine.
  pub run-TokenSteps :
      (requests : List Request) (w : World)
      → IsConsistent w.committed
      → TokenSteps w.committed.refresh_tokens (run self requests w).committed.refresh_tokens
  unfolding run
  run-TokenSteps [] w consistent = done w.committed.refresh_tokens
  run-TokenSteps (request ∷ requests) w consistent =
      step_first _ _ _ (session-TokenStep request w consistent)
        (run-TokenSteps requests _ (run-IsConsistent self (request ∷ []) w consistent))

TokenSteps-IsLocked :
    (f : Uuid) (before after : List RefreshTokenRow)
    → TokenSteps before after
    → IsLocked f before
    → IsLocked f after
TokenSteps-IsLocked f _ _ (done rows) locked = locked
TokenSteps-IsLocked f _ _ (then_more before rows after step more) locked =
    TokenSteps-IsLocked f rows after more (TokenStep-IsLocked f before rows step locked)

-- From consistent committed tables: once every token of a family is revoked, the last of them without
-- a replacement, no request ever rotates a token of this family again, whatever requests came before
-- it. A session `next` starts from the tables that they leave.
pub run-locked_family :
    (self : AuthService) (requests : List Request) (w next : World) (token : String)
    (r : RefreshTokenRecord) (tokens : AccessToken × RefreshToken)
    → IsConsistent w.committed
    → IsLocked r.family_id w.committed.refresh_tokens
    → next.db ≡ (run self requests w).committed
    → IsPresented self next.db next.asked token r
    → (refresh self token next).0 ≢ ok tokens
run-locked_family self requests w next token r tokens consistent locked after presented =
    let still =
      TokenSteps-IsLocked r.family_id _ _ (run-TokenSteps self requests w consistent) locked in
    revoked_family-refused self next token r
      (subst IsConsistent (sym after) (run-IsConsistent self requests w consistent))
      (subst (FamilyRevoked r.family_id) (sym after) still.revoked) presented tokens
