-- ===== src/Auth/Domain.antt =====
-- app/auth/domain.py
use ai_backend_foundation.Prelude.{String, Bool, Option, List, [], is_empty, if◌then◌else◌}
use ai_backend_foundation.Shared.Errors.{
  AppError, value_error, invalid_credentials, refresh_reuse_detected,
}
use ai_backend_foundation.Shared.Types.{Uuid, DateTime}
use ai_backend_foundation.Action.{Outcome, ok, raised}

pub record UserAuthRecord : Type 0 where
  pub id : Uuid
  pub email : String
  pub password_hash : String
  pub created_at : DateTime
  pub tenant_id : Option Uuid
  pub disabled : Bool

pub record RefreshTokenRecord : Type 0 where
  pub id : Uuid
  pub user_id : Uuid
  pub family_id : Uuid
  pub hash : String
  pub issued_at : DateTime
  pub expires_at : DateTime
  pub revoked_at : Option DateTime
  pub replaced_by : Option Uuid

pub record Credentials : Type 0 where
  pub username : String
  pub password : String

pub record AuthenticatedUser : Type 0 where
  pub user_id : String
  pub email : String
  pub tenant_id : String
  pub scopes : List String

-- The constructor of `AuthenticatedUser` with its `__post_init__`.
unfoldable pub authenticated_user :
    String → String → String → List String → Outcome AuthenticatedUser
authenticated_user user_id email tenant_id scopes =
    if is_empty email
    then raised (value_error "email must not be empty")
    else ok (record { user_id = user_id; email = email; tenant_id = tenant_id; scopes = scopes })

pub record AccessToken : Type 0 where
  pub token : String
  pub expires_at : DateTime

pub record RefreshToken : Type 0 where
  pub token : String
  pub expires_at : DateTime

abbrev pub invalid_credentials_error : Option String → AppError
invalid_credentials_error detail = record {
  class = invalid_credentials;
  code = "invalid-credentials";
  title = "Invalid credentials";
  status = 401;
  detail = detail;
  extras = [];
}

abbrev pub refresh_reuse_detected_error : Option String → AppError
refresh_reuse_detected_error detail = record {
  class = refresh_reuse_detected;
  code = "refresh-token-reuse";
  title = "Refresh token reuse detected";
  status = 401;
  detail = detail;
  extras = [];
}
