-- ===== src/Auth/Deps.antt =====
-- app/auth/deps.py and app/auth/policies.py: the dependencies of the handlers. `Wiring` is what they
-- read of the container of app/core/container.py and of the settings.
pub mod CurrentUser
use ai_backend_foundation.Action.{
  Action, Outcome, lift, ok, pure, raise, raise_if, raised, ◌>>=◌, ◌>>◌,
}
use ai_backend_foundation.Auth.Domain.{AuthenticatedUser, authenticated_user}
use ai_backend_foundation.Auth.Ports.{Claims, PasswordHasher, TokenSigner}
use ai_backend_foundation.Auth.Service.{AuthService, is_authentication_error, or_raise}
use ai_backend_foundation.Database.{World, ask, log_event, with_session}
use ai_backend_foundation.Prelude.{
  Bool, List, Option, String, [], if◌then◌else◌, none, not, some, ℕ, ◌*◌, ◌/◌,
}
use ai_backend_foundation.Shared.Errors.{
  ErrorClass, Exception, app, attribute_error, authentication_error, base, unexpected_error,
  value_error,
}
use ai_backend_foundation.Shared.Types.{Clock, Uuid, UuidModule}
use ai_backend_foundation.Shared.Values.{Value, get_claim, is_text, is_true, text, texts}

pub record Wiring : Type 0 where
  pub session_factory : Bool
  pub password_hasher : Option PasswordHasher
  pub token_signer : Option TokenSigner
  pub clock : Option Clock
  pub access_ttl_seconds : ℕ
  pub refresh_ttl_seconds : ℕ

abbrev pub wiring_error : String → String → Exception
wiring_error title detail = app (record {
  class = ErrorClass.base;
  code = "wiring-error";
  title = title;
  status = 500;
  detail = some detail;
  extras = [];
})

abbrev pub unauthenticated : String → Exception
unauthenticated detail = app (authentication_error (some detail) [])

-- `if component is None: logger.error(…); raise AppError(…)`
unfoldable pub or_unwired : {A : Type 0} → String → Exception → Option A → Action World A
or_unwired event e none = log_event event >> raise e
or_unwired event e (some a) = pure a

unfoldable pub get_auth_service : UuidModule → Wiring → Action World AuthService
get_auth_service uuid container = do
  password_hasher ←
      or_unwired "password_hasher_missing"
        (wiring_error "PasswordHasher not wired" "PasswordHasher not wired in container")
        container.password_hasher
  token_signer ←
      or_unwired "token_signer_missing"
        (wiring_error "TokenSigner not wired" "TokenSigner not wired in container")
        container.token_signer
  clock ←
      or_unwired "clock_missing" (wiring_error "Clock not wired" "Clock not wired in container")
        container.clock
  pure (record {
    uuid = uuid;
    password_hasher = password_hasher;
    token_signer = token_signer;
    clock = clock;
    access_token_expires_minutes = container.access_ttl_seconds / 60;
    refresh_token_expires_days = container.refresh_ttl_seconds / (60 * 60 * 24);
  })

unfoldable pub get_clock : Wiring → Action World Clock
get_clock container =
    or_unwired "clock_missing" (wiring_error "Clock not wired" "Clock not wired in container")
      container.clock

-- `if not container.session_factory: raise …`, then the session around the rest of the request.
unfoldable pub get_db_session : {A : Type 0} → Wiring → Action World A → Action World A
get_db_session container rest =
    if container.session_factory
    then with_session rest
    else (log_event "session_factory_missing"
        >> raise (
            wiring_error "Session factory not initialized"
              "session_factory not initialized in container"))

unfoldable pub require_authenticated : Option AuthenticatedUser → Action World AuthenticatedUser
require_authenticated none = raise (unauthenticated "Not authenticated")
require_authenticated (some user) = pure user

-- `active` is the claim, of which only the truth value counts.
unfoldable pub require_active_user :
    AuthenticatedUser → Option Value → Action World AuthenticatedUser
require_active_user user active = do
  raise_if (not (is_true active)) (unauthenticated "User is disabled")
  pure user

-- The `try` of `get_current_user` around `token_signer.verify`.
unfoldable pub verified_claims : Outcome Claims → Action World Claims
verified_claims (ok claims) = pure claims
verified_claims (raised e) =
    if is_authentication_error e
    then raise e
    else (log_event "token_verification_error" >> raise (unauthenticated "Invalid token"))

-- Claims whose type is not the one that the annotations give: what Python then makes of them is left
-- out, and an exception stands for it.
abbrev pub wrong_type : Exception
wrong_type = unexpected_error "claim of another type"

-- `frozenset(claims.get("scopes", []))`
abbrev pub scopes_of : Option Value → Outcome (List String)
scopes_of none = ok []
scopes_of (some (texts scopes)) = ok scopes
scopes_of _ = raised wrong_type

abbrev pub email_of : Option Value → Outcome String
email_of (some (text s)) = ok s
email_of _ = raised wrong_type

module _ (uuid : UuidModule) where
  -- `UUID(value)`
  unfoldable pub parse_uuid : Option Value → Action World Uuid
  parse_uuid (some (text s)) =
      or_raise (value_error "badly formed hexadecimal UUID string") (uuid.parse s)
  parse_uuid _ = raise attribute_error

  -- `TenantId(str(UUID(tenant_id_str))) if tenant_id_str else TenantId("")`
  unfoldable pub tenant_of : Option Value → Action World String
  tenant_of tenant_id =
      if is_true tenant_id then (do id ← parse_uuid tenant_id; pure (uuid.str id)) else pure ""

  -- `get_current_user` from the claims on.
  unfoldable pub user_of : Claims → Action World AuthenticatedUser
  user_of claims = do
    raise_if (not (is_text "access" (get_claim "typ" claims)))
        (unauthenticated "Invalid token type")
    raise_if (not (is_true (get_claim "sub" claims)))
        (unauthenticated "Invalid token claims: missing sub")
    raise_if (not (is_true (get_claim "email" claims)))
        (unauthenticated "Invalid token claims: missing email")
    user_id ← parse_uuid (get_claim "sub" claims)
    email ← lift (email_of (get_claim "email" claims))
    tenant_id ← tenant_of (get_claim "tenant_id" claims)
    scopes ← lift (scopes_of (get_claim "scopes" claims))
    user ← lift (authenticated_user (uuid.str user_id) email tenant_id scopes)
    user ← require_authenticated (some user)
    require_active_user user (get_claim "active" claims)

  unfoldable pub verify_user : Option TokenSigner → String → Action World AuthenticatedUser
  verify_user signer token = do
    signer ←
        or_unwired "token_signer_missing"
          (wiring_error "TokenSigner not wired" "TokenSigner not wired in container") signer
    verified ← ask (λ n. signer.verify n token)
    claims ← verified_claims verified
    user_of claims

  -- The credentials are those that `HTTPBearer(auto_error=False)` found.
  unfoldable pub get_current_user : Wiring → Option String → Action World AuthenticatedUser
  get_current_user container none = require_authenticated none
  get_current_user container (some token) = verify_user container.token_signer token
