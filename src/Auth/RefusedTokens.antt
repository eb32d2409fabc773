-- ===== src/Auth/RefusedTokens.antt =====
-- What becomes of a token that PyJWT does not decode, from app/auth/adapters/jwt_signer.py through
-- app/auth/service.py and app/auth/deps.py.
use Prim.Native.String.{◌++◌ as append_text}
-- A method ended so in the world `w`, and it changed no table.
use ai_backend_foundation.Action.{Outcome, ok, pure, raise, raised, ◌>>=◌}
use ai_backend_foundation.Auth.Deps.{
  Wiring, get_current_user, or_unwired, unauthenticated, verified_claims, verify_user,
}
use ai_backend_foundation.Auth.JwtSigner.{
  Decoded, JwtFailure, JwtSigner, algorithm, crashed, expired_signature, failed, invalid_audience,
  invalid_issuer, jwt_verify, leeway, other_jwt_error,
}
use ai_backend_foundation.Auth.Service.{
  AuthService, claims_or_raise, invalid, is_authentication_error, logout, logout_verified,
  presented_record, refresh,
}
use ai_backend_foundation.Core.Wiring.{token_signer_of}
use ai_backend_foundation.Database.{World, ask, log_event}
use ai_backend_foundation.Prelude.{String, [], false, refl, some, ◌∷◌, ◌≡◌}
use ai_backend_foundation.Shared.Errors.{Exception}
use ai_backend_foundation.Shared.Types.{Clock}

abbrev pub Ends : {A : Type 0} → World → Outcome A × World → Outcome A → Type 0
Ends w (r, w') expected = (r ≡ expected) × (w'.db ≡ w.db) × (w'.committed ≡ w.committed)

-- The details that the callers of the API are shown.
abbrev pub refusal : JwtFailure → String
refusal expired_signature = "Token has expired"
refusal invalid_issuer = "Invalid token issuer"
refusal invalid_audience = "Invalid token audience"
refusal (other_jwt_error e) = append_text "Invalid token: " e

module _ (self : AuthService) (signer : JwtSigner) (clock : Clock) (container : Wiring) (w : World)
    (token : String) (serves : self.token_signer ≡ token_signer_of signer clock)
    (wired : container.token_signer ≡ some (token_signer_of signer clock)) where
  -- What PyJWT answers when the next question is to verify the token.
  abbrev pub answer : Decoded
  answer =
      signer.jwt.decode (clock.now w.asked) token signer.public_key (algorithm ∷ []) signer.audience
        signer.issuer leeway

  -- Where the port `TokenSigner` is filled with `JwtSigner` and PyJWT refuses a token with a
  -- `PyJWTError`: `refresh` raises `InvalidCredentialsError`, `logout` returns as if all were well,
  -- `get_current_user` raises an `AuthenticationError` that says what was wrong, and none of the three
  -- changes a table.
  pub failed_token :
      (f : JwtFailure)
      → answer ≡ failed f
      → Ends w (refresh self token w) (raised (invalid "Invalid refresh token"))
        × Ends w (logout self token w) (ok tt)
        × Ends w
            (get_current_user self.uuid container (some token) w)
            (raised (unauthenticated (refusal f)))
  unfolding refresh presented_record claims_or_raise logout logout_verified get_current_user
      verify_user or_unwired verified_claims token_signer_of jwt_verify ask log_event raise pure
      ◌>>=◌
  failed_token expired_signature h =
      rw (serves, wired, h) ((refl, refl, refl), (refl, refl, refl), (refl, refl, refl))
  failed_token invalid_issuer h =
      rw (serves, wired, h) ((refl, refl, refl), (refl, refl, refl), (refl, refl, refl))
  failed_token invalid_audience h =
      rw (serves, wired, h) ((refl, refl, refl), (refl, refl, refl), (refl, refl, refl))
  failed_token (other_jwt_error e) h =
      rw (serves, wired, h) ((refl, refl, refl), (refl, refl, refl), (refl, refl, refl))

  -- Where PyJWT raises an exception of another class, which is no `AuthenticationError`: `refresh` and
  -- `logout` pass it on, `get_current_user` raises an `AuthenticationError` in its place, and none of
  -- the three changes a table.
  pub crashed_token :
      (e : Exception)
      → answer ≡ crashed e
      → is_authentication_error e ≡ false
      → Ends w (refresh self token w) (raised e)
        × Ends w (logout self token w) (raised e)
        × Ends w
            (get_current_user self.uuid container (some token) w)
            (raised (unauthenticated "Invalid token"))
  unfolding refresh presented_record claims_or_raise logout logout_verified get_current_user
      verify_user or_unwired verified_claims token_signer_of jwt_verify ask log_event raise pure
      ◌>>=◌
  crashed_token e h other =
      rw (serves, wired, h, other) ((refl, refl, refl), (refl, refl, refl), (refl, refl, refl))
