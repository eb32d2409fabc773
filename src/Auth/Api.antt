-- ===== src/Auth/Api.antt =====
-- app/auth/api.py: the handlers, each in the session that `_get_db_session` of app/auth/deps.py opens
-- for its request.
pub mod Sequence
use Prim.Native.String.{count}
use ai_backend_foundation.Action.{Action, pure, raise_if, ◌>>=◌, ◌>>◌}
use ai_backend_foundation.Auth.Domain.{AccessToken, RefreshToken}
use ai_backend_foundation.Auth.Service.{AuthService, login, logout, refresh, register}
use ai_backend_foundation.Database.{World, ask, with_session}
use ai_backend_foundation.Prelude.{List, String, [], ltb, ℕ, ◌-◌, ◌/◌, ◌∷◌}
use ai_backend_foundation.Shared.Errors.{request_validation_error}
use ai_backend_foundation.Shared.Types.{microseconds}

pub data Request : Type 0 where
  register_request : String → String → Request
  login_request : String → String → Request
  refresh_request : String → Request
  logout_request : String → Request

pub record TokenResponse : Type 0 where
  pub access_token : String
  pub refresh_token : String
  pub token_type : String
  pub expires_in : ℕ

pub data Reply : Type 0 where
  register_response : String → String → Reply
  token_response : TokenResponse → Reply
  no_content : Reply

module _ (self : AuthService) where
  -- `max(0, int((expires_at - clock.now()).total_seconds()))`: the subtraction stops at 0.
  unfoldable pub reply_tokens : AccessToken × RefreshToken → Action World Reply
  reply_tokens (access_token, refresh_token) = do
    now ← ask self.clock.now
    pure (
        token_response (record {
          access_token = access_token.token;
          refresh_token = refresh_token.token;
          token_type = "Bearer";
          expires_in = (access_token.expires_at - now) / microseconds;
        }))

  -- `password: str = Field(..., min_length=8)` is checked before the handler runs.
  unfoldable pub handle : Request → Action World Reply
  handle (register_request email password) = do
    raise_if (ltb (count password) 8) (request_validation_error ("password" ∷ []))
    user ← register self email password
    pure (register_response user.user_id user.tenant_id)
  handle (login_request username password) = do
    tokens ← login self (record { username = username; password = password })
    reply_tokens tokens
  handle (refresh_request token) = do tokens ← refresh self token; reply_tokens tokens
  handle (logout_request token) = do logout self token; pure no_content

  -- The world after requests that are answered one after another.
  unfoldable pub run : List Request → World → World
  run [] w = w
  run (request ∷ requests) w = run requests (with_session (handle request) w).1
