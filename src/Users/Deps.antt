-- ===== src/Users/Deps.antt =====
-- app/users/deps.py, and the whole of `GET /users/me` with all its dependencies.
use ai_backend_foundation.Action.{Action, pure, raise, ◌>>=◌, ◌>>◌}
use ai_backend_foundation.Auth.Deps.{Wiring, get_current_user, or_unwired}
use ai_backend_foundation.Database.{World, log_event, with_session}
use ai_backend_foundation.Prelude.{Option, String, if◌then◌else◌}
use ai_backend_foundation.Shared.Errors.{runtime_error}
use ai_backend_foundation.Shared.Types.{UuidModule}
use ai_backend_foundation.Users.Persistence.{UserProfile}
use ai_backend_foundation.Users.Service.{UserService, my_profile}

-- `if container.session_factory is None: raise …`, then the session around the rest of the request.
unfoldable pub users_db_session : {A : Type 0} → Wiring → Action World A → Action World A
users_db_session container rest =
    if container.session_factory
    then with_session rest
    else (log_event "session_factory_missing"
        >> raise (runtime_error "session_factory not initialized in container"))

unfoldable pub get_user_service : Wiring → Action World UserService
get_user_service container = do
  clock ← or_unwired "clock_missing" (runtime_error "Clock not wired in container") container.clock
  pure (record { clock = clock })

-- `GET /users/me`: the current user, the session, the service, and the handler.
unfoldable pub me_route : UuidModule → Wiring → Option String → Action World UserProfile
me_route uuid container credentials = do
  current_user ← get_current_user uuid container credentials
  users_db_session container
      do user_service ← get_user_service container; my_profile uuid user_service current_user
