-- ===== src/Tests/Setup.antt =====
-- A concrete application: the text of an identifier is unary, the hash of a text has a mark at its
-- end, and a refresh token is the text of its own identifier.
use Prim.Native.String.{count}
use Prim.Native.String.{◌++◌ as str_append}
use ai_backend_foundation.Action.{ok, raised}
use ai_backend_foundation.Auth.Deps.{Wiring}
use ai_backend_foundation.Auth.Invariant.{IsConsistent}
use ai_backend_foundation.Auth.Ports.{Claims, PasswordHasher, TokenSigner}
use ai_backend_foundation.Auth.Service.{AuthService}
use ai_backend_foundation.Database.{Database, RefreshTokenRow, UserRow, World}
use ai_backend_foundation.Prelude.{
  Option, String, [], false, if◌then◌else◌, is_empty, none, refl, some, str_eq, suc, true, zero, ℕ,
  ◌+◌, ◌∷◌,
}
use ai_backend_foundation.Shared.Errors.{app, authentication_error, runtime_error}
use ai_backend_foundation.Shared.Types.{UuidModule}
use ai_backend_foundation.Shared.Values.{Value, flag, get_claim, text}

abbrev pub unary : ℕ → String
unary zero = ""
unary (suc n) = str_append "u" (unary n)

abbrev pub uuids : UuidModule
uuids = record {
  uuid4 = λ n. n + 20;
  str = unary;
  parse = λ s. if is_empty s then none else some (count s);
}

abbrev pub hasher : PasswordHasher
hasher = record {
  hash = λ n s. str_append s "#";
  verify = λ s h. str_eq (str_append s "#") h;
  needs_rehash = λ h. false;
}

abbrev pub text_or_access : Option Value → String
text_or_access (some (text s)) = s
text_or_access _ = "access"

abbrev pub access_payload : Claims
access_payload =
    ("typ", text "access")
    ∷ ("sub", text "u")
    ∷ ("email", text "alice")
    ∷ ("active", flag true)
    ∷ []

abbrev pub signer : TokenSigner
signer = record {
  sign = λ n claims. text_or_access (get_claim "jti" claims);
  verify = λ n token.
      if str_eq token "bad"
      then raised (app (authentication_error (some "Invalid token") []))
      else if str_eq token "fault"
      then raised (runtime_error "the key is not readable")
      else if str_eq token "access"
      then ok access_payload
      else ok (("typ", text "refresh") ∷ ("jti", text token) ∷ []);
}

abbrev pub service : AuthService
service = record {
  uuid = uuids;
  password_hasher = hasher;
  token_signer = signer;
  clock = record { now = λ n. n };
  access_token_expires_minutes = 15;
  refresh_token_expires_days = 30;
}

abbrev pub wiring : Wiring
wiring = record {
  session_factory = true;
  password_hasher = some hasher;
  token_signer = some signer;
  clock = some (record { now = λ n. n });
  access_ttl_seconds = 900;
  refresh_ttl_seconds = 2_592_000;
}

abbrev pub alice : UserRow
alice = record {
  id = 1;
  email = "alice";
  password_hash = "password#";
  created_at = 0;
  tenant_id = none;
  disabled = false;
}

-- The first token of a family, used before, and the one that replaced it.
abbrev pub used_token : RefreshTokenRow
used_token = record {
  id = 2;
  user_id = 1;
  family_id = 5;
  hash = "uu#";
  issued_at = 0;
  expires_at = 1000;
  revoked_at = some 1;
  replaced_by = some 3;
}

abbrev pub active_token : RefreshTokenRow
active_token = record {
  id = 3;
  user_id = 1;
  family_id = 5;
  hash = "uuu#";
  issued_at = 1;
  expires_at = 1000;
  revoked_at = none;
  replaced_by = none;
}

abbrev pub tables : Database
tables = record {
  users = alice ∷ [];
  refresh_tokens = active_token ∷ used_token ∷ [];
  user_profiles = [];
}

abbrev pub world : World
world = record { committed = tables; db = tables; asked = 0; log = [] }

pub tables-IsConsistent : IsConsistent tables
tables-IsConsistent = record {
  users_apart = (tt, tt);
  tokens_apart = (((λ h. cc, λ h. cc, λ e h k. cc), tt), (tt, tt));
  revoked = (λ h. cc, (λ h. refl, tt));
  owned = (refl, (refl, tt));
}
