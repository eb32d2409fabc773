-- ===== src/Main.antt =====
-- app/main/app_factory.py: the stack of middleware around the routes, outermost first, and the
-- handlers that `register_exception_handlers` installs. What Starlette does is a parameter.
pub mod Responses
use ai_backend_foundation.Action.{ok, raised}
use ai_backend_foundation.Api.Errors.{
  app_error_handler, unhandled_exception_handler, validation_error_handler,
}
use ai_backend_foundation.Api.SecurityHeaders.{security_headers}
use ai_backend_foundation.Http.{Edge, Endpoint, Response}
use ai_backend_foundation.Observability.AccessLog.{access_log}
use ai_backend_foundation.Observability.Correlation.{correlation}
use ai_backend_foundation.Prelude.{Bool, List, Option, String, false, true, ℕ, ◌≡◌}
use ai_backend_foundation.Shared.Errors.{AppError, Exception, app, request_validation_error}
use ai_backend_foundation.Shared.Types.{UuidModule}

-- The classes that `register_exception_handlers` names beside `Exception`.
abbrev pub has_own_handler : Exception → Bool
has_own_handler (app e) = true
has_own_handler (request_validation_error errors) = true
has_own_handler _ = false

-- The layers of Starlette, with what its documentation says of exceptions: the inner layer turns
-- those with a handler of their own into a response, the outer one the rest, and CORS passes them.
pub record Starlette (uuid : UuidModule) : Type 0 where
  pub cors : Endpoint → Endpoint
  pub cors_raises :
      (m : Endpoint) (s s' : Edge) (e : Exception)
      → m s ≡ (raised e, s')
      → cors m s ≡ (raised e, s')
  pub exception_layer : Endpoint → Endpoint
  pub app_error :
      (m : Endpoint) (s s' : Edge) (e : AppError)
      → m s ≡ (raised (app e), s')
      → exception_layer m s ≡ (ok (app_error_handler uuid e s').0, (app_error_handler uuid e s').1)
  pub validation :
      (m : Endpoint) (s s' : Edge) (errors : List String)
      → m s ≡ (raised (request_validation_error errors), s')
      → exception_layer m s ≡ (
        ok (validation_error_handler uuid errors s').0,
        (validation_error_handler uuid errors s').1,
      )
  pub unexpected :
      (m : Endpoint) (s s' : Edge) (e : Exception)
      → has_own_handler e ≡ false
      → m s ≡ (raised e, s')
      → exception_layer m s ≡ (raised e, s')
  pub server_error_layer : Endpoint → Endpoint
  pub server_error :
      (m : Endpoint) (s s' : Edge) (e : Exception)
      → m s ≡ (raised e, s')
      → server_error_layer m s
        ≡ (ok (unhandled_exception_handler uuid e s').0, (unhandled_exception_handler uuid e s').1)
  pub server_passes :
      (m : Endpoint) (s s' : Edge) (r : Response)
      → m s ≡ (ok r, s')
      → server_error_layer m s ≡ (ok r, s')

-- What a request brings that the middleware reads.
pub record Request : Type 0 where
  pub method : String
  pub path : String
  pub x_request_id : Option String

-- Correlation -> AccessLog -> SecurityHeaders -> CORS -> routes.
module _ (uuid : UuidModule) (starlette : Starlette uuid) (perf_counter : ℕ → ℕ) (enabled : Bool)
    (request : Request) where
  unfoldable pub middleware : Endpoint → Endpoint
  middleware routes = correlation uuid request.x_request_id (
      access_log perf_counter request.method request.path
        (security_headers enabled (starlette.cors (starlette.exception_layer routes))))

  -- Up to the answer that is sent: after the answer to an unhandled exception Starlette raises the
  -- exception again, for the server to log.
  unfoldable pub serve : Endpoint → Endpoint
  serve routes = starlette.server_error_layer (middleware routes)
