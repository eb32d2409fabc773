-- ===== src/Tests/Jwt.antt =====
-- Tests of app/auth/adapters.
use ai_backend_foundation.Action.{ok, raised}
use ai_backend_foundation.Auth.Deps.{Wiring, get_current_user, unauthenticated}
use ai_backend_foundation.Auth.JwtSigner.{
  JwtSigner, PyJwt, crashed, expired_signature, failed, payload,
}
use ai_backend_foundation.Auth.RefusedTokens.{Ends, crashed_token, failed_token}
use ai_backend_foundation.Auth.Service.{AuthService, invalid, logout, refresh}
use ai_backend_foundation.Core.Wiring.{token_signer_of}
use ai_backend_foundation.Prelude.{[], refl, some, ◌∷◌, ◌≡◌}
use ai_backend_foundation.Shared.Errors.{value_error}
use ai_backend_foundation.Shared.Types.{Clock}
use ai_backend_foundation.Shared.Values.{get_claim, number, text}
use ai_backend_foundation.Tests.Setup.{service, signer, uuids, wiring, world}

abbrev expiring : PyJwt
expiring = record {
  encode = λ claims key algorithm_name. key;
  decode = λ now token key algorithms audience issuer seconds. failed expired_signature;
}

abbrev jwt_signer : JwtSigner
jwt_signer = record {
  jwt = expiring;
  uuid = uuids;
  private_key = "private";
  public_key = "public";
  issuer = "backend";
  audience = "clients";
  access_ttl_seconds = 900;
}

payload_added :
    get_claim "exp" (payload jwt_signer 5_000_000 7 (("sub", text "u") ∷ [])) ≡ some (number 905)
unfolding payload
payload_added = refl

-- The clock of the adapters shows the number of the question.
abbrev counting : Clock
counting = record { now = λ n. n }

abbrev crashing_signer : JwtSigner
crashing_signer = record jwt_signer {
  jwt = record {
    encode = λ claims key algorithm_name. key;
    decode = λ now token key algorithms audience issuer seconds. crashed (value_error "broken");
  };
}

abbrev service_with : JwtSigner → AuthService
service_with signer = record service { token_signer = token_signer_of signer counting }

abbrev container_with : JwtSigner → Wiring
container_with signer = record wiring { token_signer = some (token_signer_of signer counting) }

failed_token_example :
    Ends world
      (refresh (service_with jwt_signer) "token" world)
      (raised (invalid "Invalid refresh token"))
    × Ends world (logout (service_with jwt_signer) "token" world) (ok tt)
    × Ends world
        (get_current_user uuids (container_with jwt_signer) (some "token") world)
        (raised (unauthenticated "Token has expired"))
failed_token_example =
    failed_token (service_with jwt_signer) jwt_signer counting (container_with jwt_signer) world
      "token" refl refl expired_signature refl

crashed_token_example :
    Ends world
      (refresh (service_with crashing_signer) "token" world)
      (raised (value_error "broken"))
    × Ends world
        (logout (service_with crashing_signer) "token" world)
        (raised (value_error "broken"))
    × Ends world
        (get_current_user uuids (container_with crashing_signer) (some "token") world)
        (raised (unauthenticated "Invalid token"))
crashed_token_example =
    crashed_token (service_with crashing_signer) crashing_signer counting
      (container_with crashing_signer) world "token" refl refl (value_error "broken") refl refl
