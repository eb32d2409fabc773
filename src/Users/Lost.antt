-- ===== src/Users/Lost.antt =====
-- The request that creates a profile never commits it.
use ai_backend_foundation.Action.Rules.{Keeps, Keeps-bind, keeps_rules}
use ai_backend_foundation.Auth.Atomic.{Uncommitted}
use ai_backend_foundation.Auth.Atomic.Statements.{or_raise-Uncommitted, uncommitted_rules}
use ai_backend_foundation.Auth.Domain.{AuthenticatedUser}
use ai_backend_foundation.Database.{
  Database, UserProfileRow, World, set_user_profiles, with_session,
}
use ai_backend_foundation.Prelude.{List, Option, String, none, refl, some, ◌≡◌}
use ai_backend_foundation.Shared.Types.{Uuid, UuidModule}
use ai_backend_foundation.Users.Persistence.{UserProfile, create_user_profile, get_user_profile}
use ai_backend_foundation.Users.Service.{
  UserService, get_my_profile, get_or_create_profile, my_profile, profile_or_new,
}

module _ (d : Database) where
  set_profiles-Uncommitted :
      (rows : List UserProfileRow) → Keeps (Uncommitted d) (set_user_profiles rows)
  unfolding set_user_profiles
  set_profiles-Uncommitted rows = record { at = λ w h. h }

  get-Uncommitted : (id : Uuid) → Keeps (Uncommitted d) (get_user_profile id)
  unfolding get_user_profile
  get-Uncommitted id = search uncommitted_rules

  create-Uncommitted : (row : UserProfileRow) → Keeps (Uncommitted d) (create_user_profile row)
  unfolding create_user_profile
  create-Uncommitted row = search (uncommitted_rules, set_profiles-Uncommitted) depth 12

  profile_or_new-Uncommitted :
      (self : UserService) (id : Uuid) (email : String) (o : Option UserProfile)
      → Keeps (Uncommitted d) (profile_or_new self id email o)
  unfolding profile_or_new
  profile_or_new-Uncommitted self id email none = search (uncommitted_rules, create-Uncommitted)
  profile_or_new-Uncommitted self id email (some p) = search keeps_rules

  get_or_create-Uncommitted :
      (self : UserService) (id : Uuid) (email : String)
      → Keeps (Uncommitted d) (get_or_create_profile self id email)
  unfolding get_or_create_profile
  get_or_create-Uncommitted self id email =
      search (uncommitted_rules, get-Uncommitted, profile_or_new-Uncommitted)

-- Whatever `GET /users/me` answers, it leaves the committed tables as they were, and the next
-- session starts from them: the profile that it says it created is not kept.
pub get_my_profile-lost :
    (uuid : UuidModule) (self : UserService) (user : AuthenticatedUser) (w : World)
    → ((get_my_profile uuid self user w).1.committed ≡ w.committed)
      × ((get_my_profile uuid self user w).1.db ≡ w.committed)
unfolding get_my_profile my_profile with_session
get_my_profile-lost uuid self user w = (kept, kept)
  where
    kept : (get_my_profile uuid self user w).1.committed ≡ w.committed
    kept =
        (Keeps-bind _ _ (or_raise-Uncommitted w.committed _ (uuid.parse user.user_id))
            (λ id. get_or_create-Uncommitted w.committed self id user.email)).at
          (record w { db = w.committed }) refl
