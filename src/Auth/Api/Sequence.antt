-- ===== src/Auth/Api/Sequence.antt =====
-- Every sequence of requests keeps the tables consistent.
use ai_backend_foundation.Action.Rules.{Keeps}
use ai_backend_foundation.Auth.Api.{
  Request, handle, login_request, logout_request, refresh_request, register_request, reply_tokens,
  run,
}
use ai_backend_foundation.Auth.Domain.{AccessToken, RefreshToken}
use ai_backend_foundation.Auth.Invariant.{IsConsistent, IsValid}
use ai_backend_foundation.Auth.Invariant.Service.{
  login-IsValid, logout-IsValid, refresh-IsValid, register-IsValid,
}
use ai_backend_foundation.Auth.Invariant.Statements.{valid_statements}
use ai_backend_foundation.Auth.Service.{AuthService}
use ai_backend_foundation.Database.{World, with_session}
use ai_backend_foundation.Prelude.{List, [], ◌∷◌}

module _ (self : AuthService) where
  reply_tokens-IsValid :
      (tokens : AccessToken × RefreshToken) → Keeps IsValid (reply_tokens self tokens)
  unfolding reply_tokens
  reply_tokens-IsValid (access_token, refresh_token) = search valid_statements

  handle-IsValid : (request : Request) → Keeps IsValid (handle self request)
  unfolding handle
  handle-IsValid (register_request email password) =
      search (valid_statements, register-IsValid self)
  handle-IsValid (login_request username password) =
      search (valid_statements, login-IsValid self, reply_tokens-IsValid)
  handle-IsValid (refresh_request token) =
      search (valid_statements, refresh-IsValid self, reply_tokens-IsValid)
  handle-IsValid (logout_request token) = search (valid_statements, logout-IsValid self)

  session-IsConsistent :
      (request : Request) (w : World)
      → IsConsistent w.committed
      → IsConsistent (with_session (handle self request) w).1.committed
  unfolding with_session
  session-IsConsistent request w h =
      ((handle-IsValid request).at _ (record { committed = h; db = h })).committed

  -- From consistent committed tables every sequence of registrations, logins, refreshes and logouts,
  -- whether each of them succeeds or fails, leads to consistent committed tables: users differ in id
  -- and email, tokens differ in id and hash and have a user, a replaced token is revoked, and at most
  -- one token of a family has no replacement.
  pub run-IsConsistent :
      (requests : List Request) (w : World)
      → IsConsistent w.committed
      → IsConsistent (run self requests w).committed
  unfolding run
  run-IsConsistent [] w h = h
  run-IsConsistent (request ∷ requests) w h =
      run-IsConsistent requests _ (session-IsConsistent request w h)
