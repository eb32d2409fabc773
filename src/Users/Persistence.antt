-- ===== src/Users/Persistence.antt =====
-- app/users/domain.py and app/users/persistence.py.
use ai_backend_foundation.Action.{Action, gets, pure, ◌>>=◌, ◌>>◌}
use ai_backend_foundation.Auth.Persistence.{option_map, scalar_one_or_none}
use ai_backend_foundation.Database.{UserProfileRow, World, refuse, set_user_profiles, too_long}
use ai_backend_foundation.Prelude.{
  Option, String, any, if◌then◌else◌, not, select, str_eq, ◌==◌, ◌||◌, ◌∷◌,
}
use ai_backend_foundation.Shared.Errors.{data_error, integrity_error}
use ai_backend_foundation.Shared.Types.{DateTime, Uuid}

pub record UserProfile : Type 0 where
  pub id : Uuid
  pub email : String
  pub created_at : DateTime
  pub updated_at : DateTime

abbrev pub profile_to_domain : UserProfileRow → UserProfile
profile_to_domain row = record {
  id = row.id;
  email = row.email;
  created_at = row.created_at;
  updated_at = row.updated_at;
}

unfoldable pub get_user_profile : Uuid → Action World (Option UserProfile)
get_user_profile user_id = do
  rows ← gets (λ w. w.db.user_profiles)
  row ← scalar_one_or_none (select (λ r. r.id == user_id) rows)
  pure (option_map profile_to_domain row)

-- The flush checks what the migration 0003_users declares of the table: the length of the email, the
-- primary key, the unique index on the email, and the foreign key to `users`.
unfoldable pub create_user_profile : UserProfileRow → Action World UserProfile
create_user_profile row = do
  rows ← gets (λ w. w.db.user_profiles)
  users ← gets (λ w. w.db.users)
  if too_long row.email
      then refuse data_error
      else if any (λ r. r.id == row.id || str_eq r.email row.email) rows
          || not (any (λ u. u.id == row.id) users)
      then refuse integrity_error
      else do set_user_profiles (row ∷ rows); pure (profile_to_domain row)
