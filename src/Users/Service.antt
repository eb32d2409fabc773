-- ===== src/Users/Service.antt =====
-- app/users/service.py and the handler of app/users/api.py.
use ai_backend_foundation.Action.{Action, pure, ◌>>=◌}
use ai_backend_foundation.Auth.Domain.{AuthenticatedUser}
use ai_backend_foundation.Auth.Service.{or_raise}
use ai_backend_foundation.Database.{World, ask, with_session}
use ai_backend_foundation.Prelude.{Option, String, none, some}
use ai_backend_foundation.Shared.Errors.{value_error}
use ai_backend_foundation.Shared.Types.{Clock, Uuid, UuidModule}
use ai_backend_foundation.Users.Persistence.{UserProfile, create_user_profile, get_user_profile}

pub record UserService : Type 0 where
  pub clock : Clock

module _ (self : UserService) (user_id : Uuid) (email : String) where
  -- `if profile: return profile`, and the lazy creation
  unfoldable pub profile_or_new : Option UserProfile → Action World UserProfile
  profile_or_new (some profile) = pure profile
  profile_or_new none = do
    now ← ask self.clock.now
    create_user_profile (record { id = user_id; email = email; created_at = now; updated_at = now })

  unfoldable pub get_or_create_profile : Action World UserProfile
  get_or_create_profile = do profile ← get_user_profile user_id; profile_or_new profile

-- The body of the handler `get_my_profile`.
unfoldable pub my_profile : UuidModule → UserService → AuthenticatedUser → Action World UserProfile
my_profile uuid self current_user = do
  user_id ←
      or_raise (value_error "badly formed hexadecimal UUID string")
        (uuid.parse current_user.user_id)
  get_or_create_profile self user_id current_user.email

-- `GET /users/me`: the handler, in the session that `get_user_service` opens for it.
unfoldable pub get_my_profile :
    UuidModule → UserService → AuthenticatedUser → Action World UserProfile
get_my_profile uuid self current_user = with_session (my_profile uuid self current_user)
