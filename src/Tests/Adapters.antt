-- ===== src/Tests/Adapters.antt =====
-- Tests of the service of app/auth with the adapters of app/auth/adapters.
use Prim.Native.String.{◌++◌ as str_append}
use ai_backend_foundation.Action.{ok}
use ai_backend_foundation.Auth.AccessTokens.{IsUuidModule, access_token-get_current_user, bearer}
use ai_backend_foundation.Auth.Argon2Hasher.{
  Argon2Hasher, Argon2Result, answered, argon2_password_hasher, verify_mismatch_error,
}
use ai_backend_foundation.Auth.Deps.{Wiring, get_current_user}
use ai_backend_foundation.Auth.Domain.{UserAuthRecord}
use ai_backend_foundation.Auth.JwtSigner.{JwtSigner, decoded, jwt_sign, payload}
use ai_backend_foundation.Auth.Persistence.{user_to_domain}
use ai_backend_foundation.Auth.Ports.{Claims}
use ai_backend_foundation.Auth.Registration.{
  add_user, first_pair, first_token, register-login, registered_row,
}
use ai_backend_foundation.Auth.Rotation.Issue.{add_token}
use ai_backend_foundation.Auth.Service.{AuthService, access_claims, login, register}
use ai_backend_foundation.Core.Wiring.{token_signer_of}
use ai_backend_foundation.Database.{UserRow}
use ai_backend_foundation.Prelude.{
  Bool, Bool-cases, Option, String, [], ap, eq_iff, eq_refl, false, inl, inr, is_empty, none, refl,
  some, str_eq, suc, true, zero, ℕ, ◌++◌, ◌+◌, ◌∷◌, ◌≡◌,
}
use ai_backend_foundation.Shared.Types.{Clock, UuidModule}
use ai_backend_foundation.Shared.Values.{text}
use ai_backend_foundation.Tests.Setup.{alice, service, tables, tables-IsConsistent, wiring, world}

abbrev marking_result : Bool → Argon2Result
marking_result true = answered true
marking_result false = verify_mismatch_error

abbrev marking : Argon2Hasher
marking = record {
  hash = λ n s. str_append s "#";
  verify = λ h s. marking_result (str_eq (str_append s "#") h);
  check_needs_rehash = λ h. some false;
  verifies = λ n s. rw (eq_refl (str_append s "#")) refl;
}

abbrev with_argon2 : AuthService
with_argon2 = record service { password_hasher = argon2_password_hasher marking }

abbrev bob_row : UserRow
bob_row = record {
  id = 20;
  email = "bob";
  password_hash = "secret#";
  created_at = 2;
  tenant_id = none;
  disabled = false;
}

same_row : registered_row with_argon2 0 "bob" "secret" ≡ bob_row
unfolding argon2_password_hasher
same_row = refl

register-login_example :
    ((login with_argon2
        (record { username = "bob"; password = "secret" })
        (register with_argon2 "bob" "secret" world).1).0
      ≡ ok (first_pair with_argon2 world "bob" "secret" 3))
    × ((login with_argon2
          (record { username = "bob"; password = "secret" })
          (register with_argon2 "bob" "secret" world).1).1.committed
        ≡ add_token (add_user tables bob_row) (first_token with_argon2 world "bob" "secret"))
unfolding argon2_password_hasher
register-login_example =
    register-login with_argon2 world "bob" "secret" marking refl tables-IsConsistent refl refl
      (refl, refl, refl) refl refl refl

abbrev count_of : String → ℕ
count_of String.[] = 0
count_of (String.◌∷◌ c s) = suc (count_of s)

abbrev us : ℕ → String
us zero = ""
us (suc n) = String.◌∷◌ "u" (us n)

count_of-us : (n : ℕ) → count_of (us n) ≡ n
count_of-us zero = refl
count_of-us (suc n) = ap suc (count_of-us n)

abbrev parse_us : String → Option ℕ
parse_us String.[] = none
parse_us (String.◌∷◌ c s) = some (count_of s)

abbrev us_module : UuidModule
us_module = record { uuid4 = λ n. n + 20; str = λ n. us (suc n); parse = parse_us }

us-filled : (n : ℕ) → us (suc n) ≡ "" → ⊥
us-filled n h = let parsed = ap parse_us h in cc

us_module-IsUuidModule : IsUuidModule us_module
us_module-IsUuidModule = record {
  parses = λ id. ap some (count_of-us id);
  not_empty = λ id. elim (Bool-cases (is_empty (us (suc id)))) [
    | inl empty ↦ absurd (us-filled id ((eq_iff _ _).0 empty))
    | inr filled ↦ filled
  ];
}

abbrev us_service : AuthService
us_service = record service { uuid = us_module }

abbrev alice_record : UserAuthRecord
alice_record = user_to_domain alice

-- What is signed at 9 seconds with the identifier 30.
abbrev signed_claims : Claims
signed_claims =
    access_claims us_service alice_record 7
    ++ ("iss", text "backend") ∷ ("aud", text "clients") ∷ ("jti", text (us 31)) ∷ []

abbrev us_signer : JwtSigner
us_signer = record {
  jwt = record {
    encode = λ claims key algorithm_name. "token";
    decode = λ now token key algorithms audience issuer seconds. decoded signed_claims;
  };
  uuid = us_module;
  private_key = "private";
  public_key = "public";
  issuer = "backend";
  audience = "clients";
  access_ttl_seconds = 900;
}

abbrev us_clock : Clock
us_clock = record { now = λ n. n }

abbrev us_wiring : Wiring
us_wiring = record wiring { token_signer = some (token_signer_of us_signer us_clock) }

access_token-get_current_user_example :
    (get_current_user us_module us_wiring
      (some (jwt_sign us_signer 9000000 30 (access_claims us_service alice_record 7)))
      world).0
    ≡ ok (bearer us_service alice_record 7)
unfolding payload
access_token-get_current_user_example =
    access_token-get_current_user us_service us_signer us_clock us_wiring world alice_record 7
      9000000 30 us_module-IsUuidModule refl refl refl refl
