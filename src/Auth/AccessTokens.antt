-- ===== src/Auth/AccessTokens.antt =====
-- The access tokens that app/auth/service.py issues and app/auth/adapters/jwt_signer.py signs,
-- presented to app/auth/deps.py.
use ai_backend_foundation.Action.{lift, ok, pure, raise_if, ◌>>=◌}
use ai_backend_foundation.Auth.Deps.{
  Wiring, get_current_user, or_unwired, parse_uuid, require_active_user, require_authenticated,
  tenant_of, user_of, verified_claims, verify_user,
}
use ai_backend_foundation.Auth.Domain.{AuthenticatedUser, UserAuthRecord, authenticated_user}
use ai_backend_foundation.Auth.JwtSigner.{
  JwtSigner, algorithm, decoded, jwt_sign, jwt_verify, leeway, payload,
}
use ai_backend_foundation.Auth.JwtSigner.Payload.{payload-keeps}
use ai_backend_foundation.Auth.Ports.{Claims}
use ai_backend_foundation.Auth.Service.{
  AuthService, access_claims, or_raise, tenant_claim, tenant_text,
}
use ai_backend_foundation.Core.Wiring.{token_signer_of}
use ai_backend_foundation.Database.{World, ask}
use ai_backend_foundation.Prelude.{
  Option, String, [], false, is_empty, none, refl, some, suc, ◌∷◌, ◌≡◌,
}
use ai_backend_foundation.Shared.Types.{Clock, DateTime, Uuid, UuidModule}
use ai_backend_foundation.Shared.Values.{Value, get_claim}

module _ (self : AuthService) (user : UserAuthRecord) (issued_at : DateTime) where
  -- The claims with which `_issue_tokens` has the access token signed, or more.
  abbrev pub Carries : Claims → Type 0
  Carries claims =
      (key : String) (value : Value)
      → get_claim key (access_claims self user issued_at) ≡ some value
      → get_claim key claims ≡ some value

  abbrev pub bearer : AuthenticatedUser
  bearer = record {
    user_id = self.uuid.str user.id;
    email = user.email;
    tenant_id = tenant_text self user.tenant_id;
    scopes = "user" ∷ [];
  }

-- What `str` and `UUID` of Python do for each other.
pub record IsUuidModule (uuid : UuidModule) : Type 0 where
  pub parses : (id : Uuid) → uuid.parse (uuid.str id) ≡ some id
  pub not_empty : (id : Uuid) → is_empty (uuid.str id) ≡ false

module _ (self : AuthService) (user : UserAuthRecord) (issued_at : DateTime) (claims : Claims)
    (uuids_work : IsUuidModule self.uuid) (carries : Carries self user issued_at claims) where
  tenant_of-claim :
      (o : Option Uuid) (w : World)
      → tenant_of self.uuid (some (tenant_claim self o)) w ≡ (ok (tenant_text self o), w)
  unfolding tenant_of parse_uuid or_raise pure ◌>>=◌
  tenant_of-claim none w = refl
  tenant_of-claim (some id) w = rw (uuids_work.not_empty id, uuids_work.parses id) refl

  user_of-bearer :
      (w : World)
      → user.disabled ≡ false
      → is_empty user.email ≡ false
      → user_of self.uuid claims w ≡ (ok (bearer self user issued_at), w)
  unfolding user_of parse_uuid or_raise require_authenticated require_active_user authenticated_user
      lift raise_if pure ◌>>=◌
  user_of-bearer w enabled filled =
      rw
        (
          carries "typ" _ refl,
          carries "sub" _ refl,
          carries "email" _ refl,
          carries "active" _ refl,
          carries "scopes" _ refl,
          carries "tenant_id" _ refl,
          uuids_work.not_empty user.id,
          uuids_work.parses user.id,
          filled,
          enabled,
          tenant_of-claim user.tenant_id w,
        )
        (rw filled refl)

-- The access token of an enabled user, as `JwtSigner` signs it with whatever identifier at whatever
-- time: if PyJWT decodes it, at the time of the request, to the payload that was encoded, then
-- `get_current_user` returns that user with the identifier, the email, the tenant and the scope of the
-- claims. The email is not empty, and `UUID` reads what `str` writes.
pub access_token-get_current_user :
    (self : AuthService) (signer : JwtSigner) (clock : Clock) (container : Wiring) (w : World)
    (user : UserAuthRecord) (issued_at signed_at : DateTime) (jti : Uuid)
    → IsUuidModule self.uuid
    → container.token_signer ≡ some (token_signer_of signer clock)
    → (let signed = payload signer signed_at jti (access_claims self user issued_at) in
        signer.jwt.decode
          (clock.now w.asked)
          (signer.jwt.encode signed signer.private_key algorithm)
          signer.public_key
          (algorithm ∷ [])
          signer.audience
          signer.issuer
          leeway
        ≡ decoded signed)
    → user.disabled ≡ false
    → is_empty user.email ≡ false
    → (get_current_user self.uuid container
        (some (jwt_sign signer signed_at jti (access_claims self user issued_at)))
        w).0
      ≡ ok (bearer self user issued_at)
unfolding get_current_user verify_user or_unwired verified_claims token_signer_of jwt_sign
    jwt_verify ask pure ◌>>=◌
access_token-get_current_user self signer clock container w user issued_at signed_at jti works wired
      decodes enabled filled =
    rw
      (
        wired,
        decodes,
        user_of-bearer self user issued_at
            (payload signer signed_at jti (access_claims self user issued_at)) works
            (λ key value h.
              payload-keeps signer signed_at jti (access_claims self user issued_at) key value h)
            (record w { asked = suc w.asked }) enabled filled,
      )
      refl
