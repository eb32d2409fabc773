-- ===== src/Auth/JwtSigner.antt =====
-- app/auth/adapters/jwt_signer.py: `JwtSigner`. PyJWT is a parameter. A `datetime` among the claims
-- is the number of its seconds, as PyJWT encodes it.
pub mod Payload
use Prim.Native.String.{◌++◌ as append_text}
use ai_backend_foundation.Action.{Outcome, ok, raised}
use ai_backend_foundation.Auth.Ports.{Claims}
use ai_backend_foundation.Prelude.{
  List, String, [], if◌then◌else◌, is_some, some, ℕ, ◌*◌, ◌++◌, ◌+◌, ◌/◌, ◌∷◌,
}
use ai_backend_foundation.Shared.Errors.{Exception, app, authentication_error}
use ai_backend_foundation.Shared.Types.{DateTime, Uuid, UuidModule, microseconds}
use ai_backend_foundation.Shared.Values.{Value, get_claim, number, text}

-- The exceptions of `jwt.decode` that `verify` names: `PyJWTError` and three of its classes.
pub data JwtFailure : Type 0 where
  expired_signature invalid_issuer invalid_audience : JwtFailure
  other_jwt_error : String → JwtFailure

-- What a call of `jwt.decode` comes to: claims, a `PyJWTError`, or an exception of another class.
pub data Decoded : Type 0 where
  decoded : Claims → Decoded
  failed : JwtFailure → Decoded
  crashed : Exception → Decoded

-- `jwt.encode(payload, key, algorithm)`, and `jwt.decode` of a token at a time with a public key, the
-- algorithms, an audience, an issuer and a leeway in seconds.
pub record PyJwt : Type 0 where
  pub encode : Claims → String → String → String
  pub decode : DateTime → String → String → List String → String → String → ℕ → Decoded

pub record JwtSigner : Type 0 where
  pub jwt : PyJwt
  pub uuid : UuidModule
  pub private_key : String
  pub public_key : String
  pub issuer : String
  pub audience : String
  pub access_ttl_seconds : ℕ

abbrev pub algorithm : String
algorithm = "RS256"

abbrev pub leeway : ℕ
leeway = 30

-- `if key not in payload: payload[key] = value`
abbrev pub put_default : String → Value → Claims → Claims
put_default key value payload =
    if is_some (get_claim key payload) then payload else payload ++ (key, value) ∷ []

abbrev pub jwt_error : JwtFailure → Exception
jwt_error expired_signature = app (authentication_error (some "Token has expired") [])
jwt_error invalid_issuer = app (authentication_error (some "Invalid token issuer") [])
jwt_error invalid_audience = app (authentication_error (some "Invalid token audience") [])
jwt_error (other_jwt_error e) =
    app (authentication_error (some (append_text "Invalid token: " e)) [])

abbrev pub claims_of : Decoded → Outcome Claims
claims_of (decoded claims) = ok claims
claims_of (failed e) = raised (jwt_error e)
claims_of (crashed e) = raised e

module _ (self : JwtSigner) where
  -- The payload that `sign` encodes at the time `now`; `jti` is the answer of `uuid4()`.
  unfoldable pub payload : DateTime → Uuid → Claims → Claims
  payload now jti claims = put_default "jti" (text (self.uuid.str jti)) (
      put_default "exp" (number ((now + self.access_ttl_seconds * microseconds) / microseconds)) (
        put_default "iat" (number (now / microseconds))
          (put_default "aud" (text self.audience) (put_default "iss" (text self.issuer) claims))))

  unfoldable pub jwt_sign : DateTime → Uuid → Claims → String
  jwt_sign now jti claims = self.jwt.encode (payload now jti claims) self.private_key algorithm

  unfoldable pub jwt_verify : DateTime → String → Outcome Claims
  jwt_verify now token =
      claims_of (
        self.jwt.decode now token self.public_key (algorithm ∷ []) self.audience self.issuer leeway)
