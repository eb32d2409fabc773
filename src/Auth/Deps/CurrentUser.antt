-- ===== src/Auth/Deps/CurrentUser.antt =====
-- Whom app/auth/deps.py lets through.
use ai_backend_foundation.Action.{Action, Outcome, lift, ok, pure, raise, raise_if, raised, ◌>>=◌}
use ai_backend_foundation.Action.Rules.{
  Ensures, Ensures-bind, Ensures_map, Ensures_of_Keeps, Keeps, Post-ok, keeps_rules, ok-injective,
}
use ai_backend_foundation.Auth.Deps.{
  Wiring, email_of, get_current_user, or_unwired, parse_uuid, require_active_user,
  require_authenticated, tenant_of, user_of, verified_claims, verify_user, wiring_error,
}
use ai_backend_foundation.Auth.Domain.{AuthenticatedUser, authenticated_user}
use ai_backend_foundation.Auth.Ports.{Claims, TokenSigner}
use ai_backend_foundation.Auth.Service.{is_authentication_error, or_raise}
use ai_backend_foundation.Database.{World, ask, log_event}
use ai_backend_foundation.Prelude.{
  Bool, Bool-cases, List, Option, Option-cases, String, ap, arith, false, inl, inr, is_empty, none,
  not, refl, some, suc, sym, true, ℕ, ◌∙◌, ◌≡◌,
}
use ai_backend_foundation.Shared.Errors.{Exception}
use ai_backend_foundation.Shared.Types.{Uuid, UuidModule}
use ai_backend_foundation.Shared.Values.{
  Value, flag, get_claim, is_text, is_true, null, number, text, texts,
}

-- The claims of a good access token of `user`.
pub record IsAuthorized (uuid : UuidModule) (claims : Claims) (user : AuthenticatedUser)
    : Type 0 where
  pub typ : is_text "access" (get_claim "typ" claims) ≡ true
  pub active : is_true (get_claim "active" claims) ≡ true
  pub sub : String
  pub id : Uuid
  pub named : get_claim "sub" claims ≡ some (text sub)
  pub parsed : uuid.parse sub ≡ some id
  pub user_id : user.user_id ≡ uuid.str id
  pub email : get_claim "email" claims ≡ some (text user.email)
  pub nonempty : is_empty user.email ≡ false

authenticated_user_fields :
    (user_id email tenant_id : String) (scopes : List String) (user : AuthenticatedUser)
    → authenticated_user user_id email tenant_id scopes ≡ ok user
    → (is_empty email ≡ false) × (user.user_id ≡ user_id) × (user.email ≡ email)
unfolding authenticated_user
authenticated_user_fields user_id email tenant_id scopes user h =
    elim (Bool-cases (is_empty email)) [
      | inl e ↦ absurd (ground arith)
      | inr e ↦ fields e (ok-injective (rw e at h))
    ]
  where
    fields :
        is_empty email ≡ false
        → record { user_id = user_id; email = email; tenant_id = tenant_id; scopes = scopes } ≡ user
        → (is_empty email ≡ false) × (user.user_id ≡ user_id) × (user.email ≡ email)
    fields e same = (e, sym (ap (λ u. u.user_id) same), sym (ap (λ u. u.email) same))

module _ {A B : Type 0} (P : World → Type 0) (Q : B → World → Type 0) where
  lift_step :
      (r : Outcome A) (f : A → Action World B)
      → ((a : A) → r ≡ ok a → Ensures P (f a) Q (λ e w. Unit))
      → Ensures P (lift r >>= f) Q (λ e w. Unit)
  unfolding lift ◌>>=◌
  lift_step (ok a) f go = record { at = λ w h. (go a refl).at w h }
  lift_step (raised e) f go = record { at = λ w h. tt }

module _ {B : Type 0} (P : World → Type 0) (Q : B → World → Type 0) where
  test_step :
      (b : Bool) (e : Exception) (f : Unit → Action World B)
      → (b ≡ true → Ensures P (f tt) Q (λ e w. Unit))
      → Ensures P (raise_if (not b) e >>= f) Q (λ e w. Unit)
  unfolding raise_if ◌>>=◌
  test_step true e f go = record { at = λ w h. (go refl).at w h }
  test_step false e f go = record { at = λ w h. tt }

  parse_step :
      (uuid : UuidModule) (v : Option Value) (f : Uuid → Action World B)
      → ((s : String) (id : Uuid)
          → v ≡ some (text s)
          → uuid.parse s ≡ some id
          → Ensures P (f id) Q (λ e w. Unit))
      → Ensures P (parse_uuid uuid v >>= f) Q (λ e w. Unit)
  unfolding parse_uuid or_raise pure raise ◌>>=◌
  parse_step uuid (some (text s)) f go = elim (Option-cases (uuid.parse s)) [
    | inl e ↦ rw e (record { at = λ w h. tt })
    | inr (id, e) ↦ rw e (record { at = λ w h. (go s id refl e).at w h })
  ]
  parse_step uuid (some null) f go = record { at = λ w h. tt }
  parse_step uuid (some (flag b)) f go = record { at = λ w h. tt }
  parse_step uuid (some (number k)) f go = record { at = λ w h. tt }
  parse_step uuid (some (texts ts)) f go = record { at = λ w h. tt }
  parse_step uuid none f go = record { at = λ w h. tt }

email_of-text : (v : Option Value) (s : String) → email_of v ≡ ok s → v ≡ some (text s)
email_of-text (some (text t)) s h = cc
email_of-text (some null) s h = cc
email_of-text (some (flag b)) s h = cc
email_of-text (some (number k)) s h = cc
email_of-text (some (texts ts)) s h = cc
email_of-text none s h = cc

module _ (uuid : UuidModule) (P : World → Type 0) (claims : Claims) where
  or_raise-Keeps : {A : Type 0} (e : Exception) (o : Option A) → Keeps P (or_raise e o)
  unfolding or_raise
  or_raise-Keeps e none = search keeps_rules
  or_raise-Keeps e (some a) = search keeps_rules

  parse_uuid-Keeps : (v : Option Value) → Keeps P (parse_uuid uuid v)
  unfolding parse_uuid
  parse_uuid-Keeps (some (text s)) = search or_raise-Keeps
  parse_uuid-Keeps (some null) = search keeps_rules
  parse_uuid-Keeps (some (flag b)) = search keeps_rules
  parse_uuid-Keeps (some (number n)) = search keeps_rules
  parse_uuid-Keeps (some (texts ts)) = search keeps_rules
  parse_uuid-Keeps none = search keeps_rules

  tenant_of-Keeps : (v : Option Value) → Keeps P (tenant_of uuid v)
  unfolding tenant_of
  tenant_of-Keeps v = search (keeps_rules, parse_uuid-Keeps)

  tenant_step :
      {B : Type 0} (Q : B → World → Type 0) (v : Option Value) (f : String → Action World B)
      → ((s : String) → Ensures P (f s) Q (λ e w. Unit))
      → Ensures P (tenant_of uuid v >>= f) Q (λ e w. Unit)
  tenant_step Q v f go =
      Ensures-bind f go (tenant_of uuid v)
        (Ensures_of_Keeps _ _ _ (tenant_of-Keeps v) (λ s w h. h) (λ e w h. tt))

  -- What `user_of` returns is the user of the claims.
  user_of-IsAuthorized :
      Ensures P (user_of uuid claims) (λ user w. IsAuthorized uuid claims user) (λ e w. Unit)
  unfolding user_of require_authenticated require_active_user pure ◌>>=◌
  user_of-IsAuthorized = test_step _ _ _ _ _ λ typ. test_step _ _ _ _ _ λ sub_there.
      test_step _ _ _ _ _ λ email_there. parse_step _ _ _ _ _ λ sub id named parsed.
        lift_step _ _ _ _ λ email read. tenant_step _ _ _ λ tenant.
          lift_step _ _ _ _ λ scopes collected. lift_step _ _ _ _ λ user made.
            let (nonempty, user_id, same) = authenticated_user_fields _ _ _ _ user made in
            test_step _ _ _ _ _ λ active. record {
              at = λ w h. record {
                typ = typ;
                active = active;
                sub = sub;
                id = id;
                named = named;
                parsed = parsed;
                user_id = user_id;
                email = email_of-text _ _ (read ∙ ap ok (sym same));
                nonempty = ap is_empty same ∙ nonempty;
              };
            }

verified_step :
    {B : Type 0} (P : World → Type 0) (Q : B → World → Type 0) (o : Outcome Claims)
    (f : Claims → Action World B)
    → ((claims : Claims) → o ≡ ok claims → Ensures (λ w. Unit) (f claims) Q (λ e w. Unit))
    → Ensures P (verified_claims o >>= f) Q (λ e w. Unit)
unfolding verified_claims log_event raise pure ◌>>=◌
verified_step P Q (ok claims) f go = record { at = λ w h. (go claims refl).at w tt }
verified_step P Q (raised e) f go = elim (Bool-cases (is_authentication_error e)) [
  | inl auth ↦ rw auth (record { at = λ w h. tt })
  | inr fault ↦ rw fault (record { at = λ w h. tt })
]

-- The credentials are an access token that the wired signer accepts, whose claims are those of `user`.
pub record IsAccepted (uuid : UuidModule) (container : Wiring) (credentials : Option String) (n : ℕ)
    (user : AuthenticatedUser) : Type 0 where
  pub token : String
  pub given : credentials ≡ some token
  pub signer : TokenSigner
  pub wired : container.token_signer ≡ some signer
  pub claims : Claims
  pub verified : signer.verify n token ≡ ok claims
  pub authorized : IsAuthorized uuid claims user

verify_user-Ensures :
    (uuid : UuidModule) (container : Wiring) (token : String) (n : ℕ) (signer : TokenSigner)
    → container.token_signer ≡ some signer
    → Ensures
        (λ w. w.asked ≡ n)
        (verify_user uuid (some signer) token)
        (λ user w. IsAccepted uuid container (some token) n user)
        (λ e w. Unit)
unfolding verify_user or_unwired ask pure ◌>>=◌
verify_user-Ensures uuid container token n signer wired = record {
  at = λ w h. rw h (through.at (record w { asked = suc n }) tt);
}
  where
    through :
        Ensures
          (λ w. Unit)
          (verified_claims (signer.verify n token) >>= user_of uuid)
          (λ user w. IsAccepted uuid container (some token) n user)
          (λ e w. Unit)
    through = verified_step _ _ _ _ λ claims verified.
        Ensures_map _ _ _
          (λ user w authorized. record {
            token = token;
            given = refl;
            signer = signer;
            wired = wired;
            claims = claims;
            verified = verified;
            authorized = authorized;
          })
          (user_of-IsAuthorized uuid (λ w. Unit) claims)

-- `get_current_user` lets a request through only with a bearer token that the wired signer accepts
-- and whose claims make it an access token, active, with a non-empty email; the user it returns has
-- the id and the email of those claims.
pub get_current_user-IsAccepted :
    (uuid : UuidModule) (container : Wiring) (credentials : Option String) (w : World)
    (user : AuthenticatedUser)
    → (get_current_user uuid container credentials w).0 ≡ ok user
    → IsAccepted uuid container credentials w.asked user
unfolding get_current_user require_authenticated verify_user or_unwired log_event raise ◌>>=◌
get_current_user-IsAccepted uuid container none w user h = cc
get_current_user-IsAccepted uuid container (some token) w user h =
    elim (Option-cases container.token_signer) [
      | inl missing ↦ absurd (unwired missing)
      | inr (signer, wired) ↦
          Post-ok _ _ _ _
            ((verify_user-Ensures uuid container token w.asked signer wired).at w refl)
            (ap (λ s. (verify_user uuid s token w).0) (sym wired) ∙ h)
    ]
  where
    unwired_raises :
        (verify_user uuid none token w).0
        ≡ raised (wiring_error "TokenSigner not wired" "TokenSigner not wired in container")
    unwired_raises = refl

    unwired : container.token_signer ≡ none → ⊥
    unwired missing = cc (unwired_raises, missing, h)
