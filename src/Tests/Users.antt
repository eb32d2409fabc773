-- ===== src/Tests/Users.antt =====
-- Tests of app/users.
use ai_backend_foundation.Action.{gets, lift, ok, pure, raise_if, ◌>>=◌}
use ai_backend_foundation.Auth.Deps.{
  get_current_user, or_unwired, parse_uuid, require_active_user, require_authenticated, tenant_of,
  user_of, verified_claims, verify_user,
}
use ai_backend_foundation.Auth.Deps.CurrentUser.{IsAccepted}
use ai_backend_foundation.Auth.Domain.{AuthenticatedUser, authenticated_user}
use ai_backend_foundation.Auth.Persistence.{scalar_one_or_none}
use ai_backend_foundation.Auth.Service.{or_raise}
use ai_backend_foundation.Database.{ask, set_user_profiles, with_session}
use ai_backend_foundation.Prelude.{refl, some, ◌≡◌}
use ai_backend_foundation.Tests.Setup.{uuids, wiring, world}
use ai_backend_foundation.Users.Access.{me_route-IsAccepted}
use ai_backend_foundation.Users.Deps.{get_user_service, me_route, users_db_session}
use ai_backend_foundation.Users.Persistence.{UserProfile, create_user_profile, get_user_profile}
use ai_backend_foundation.Users.Service.{get_or_create_profile, my_profile, profile_or_new}

abbrev new_profile : UserProfile
new_profile = record { id = 1; email = "alice"; created_at = 1; updated_at = 1 }

me_created : (me_route uuids wiring (some "access") world).0 ≡ ok new_profile
unfolding me_route users_db_session get_user_service my_profile get_or_create_profile profile_or_new
    get_user_profile create_user_profile get_current_user verify_user or_unwired verified_claims
    user_of parse_uuid tenant_of or_raise require_authenticated require_active_user
    authenticated_user scalar_one_or_none set_user_profiles with_session ask lift gets raise_if pure
    ◌>>=◌
me_created = refl

me_route-IsAccepted_example :
    (user : AuthenticatedUser) × IsAccepted uuids wiring (some "access") 0 user
    × (uuids.parse user.user_id ≡ some 1)
me_route-IsAccepted_example =
    me_route-IsAccepted uuids wiring (some "access") world new_profile me_created
