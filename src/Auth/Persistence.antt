-- ===== src/Auth/Persistence.antt =====
-- app/auth/persistence.py: the statements over the tables `users` and `refresh_tokens`.
pub mod Steps
pub mod Writes
use ai_backend_foundation.Action.{Action, gets, pure, raise, ◌>>=◌, ◌>>◌}
use ai_backend_foundation.Auth.Domain.{RefreshTokenRecord, UserAuthRecord}
use ai_backend_foundation.Database.{
  RefreshTokenRow, UserRow, World, refuse, set_refresh_tokens, set_users, too_long,
}
use ai_backend_foundation.Prelude.{
  Bool, List, Option, String, [], any, if◌then◌else◌, is_some, leb, length, map, none, not, select,
  some, str_eq, update_where, ℕ, ◌&&◌, ◌==◌, ◌||◌, ◌∷◌,
}
use ai_backend_foundation.Shared.Errors.{data_error, integrity_error, multiple_results_found}
use ai_backend_foundation.Shared.Types.{DateTime, Uuid}

abbrev pub user_to_domain : UserRow → UserAuthRecord
user_to_domain row = record {
  id = row.id;
  email = row.email;
  password_hash = row.password_hash;
  created_at = row.created_at;
  tenant_id = row.tenant_id;
  disabled = row.disabled;
}

abbrev pub token_to_domain : RefreshTokenRow → RefreshTokenRecord
token_to_domain row = record {
  id = row.id;
  user_id = row.user_id;
  family_id = row.family_id;
  hash = row.hash;
  issued_at = row.issued_at;
  expires_at = row.expires_at;
  revoked_at = row.revoked_at;
  replaced_by = row.replaced_by;
}

-- `result.scalar_one_or_none()`
unfoldable pub scalar_one_or_none : {A : Type 0} → List A → Action World (Option A)
scalar_one_or_none [] = pure none
scalar_one_or_none (row ∷ []) = pure (some row)
scalar_one_or_none (row ∷ next ∷ rows) = raise multiple_results_found

-- `row.to_domain() if row else None`
abbrev pub option_map : {A B : Type 0} → (A → B) → Option A → Option B
option_map f none = none
option_map f (some a) = some (f a)

-- `UserRow(...)`, `session.add(row)`, `session.flush()`: the primary key, the unique email and the
-- lengths of the columns are checked.
unfoldable pub insert_user : UserRow → Action World UserAuthRecord
insert_user row = do
  users ← gets (λ w. w.db.users)
  if too_long row.email || too_long row.password_hash
      then refuse data_error
      else if any (λ r. r.id == row.id || str_eq r.email row.email) users
      then refuse integrity_error
      else do set_users (row ∷ users); pure (user_to_domain row)

unfoldable pub get_user_by_id : Uuid → Action World (Option UserAuthRecord)
get_user_by_id user_id = do
  users ← gets (λ w. w.db.users)
  row ← scalar_one_or_none (select (λ r. r.id == user_id) users)
  pure (option_map user_to_domain row)

-- An email with a NUL, at which PostgreSQL raises, is outside the model.
unfoldable pub get_user_by_email : String → Action World (Option UserAuthRecord)
get_user_by_email email = do
  users ← gets (λ w. w.db.users)
  row ← scalar_one_or_none (select (λ r. str_eq r.email email) users)
  pure (option_map user_to_domain row)

-- The index `ix_refresh_tokens_family_active` holds the family of each row with no replacement.
abbrev pub is_active_in : Uuid → RefreshTokenRow → Bool
is_active_in family_id r = r.family_id == family_id && not (is_some r.replaced_by)

-- What the unique indexes of `refresh_tokens` hold against a new row.
abbrev pub clashes : RefreshTokenRow → RefreshTokenRow → Bool
clashes row r =
    r.id == row.id
    || str_eq r.hash row.hash
    || (is_active_in row.family_id r && not (is_some row.replaced_by))

-- The foreign key of `user_id` is checked at once, that of `replaced_by` at the commit.
unfoldable pub insert_refresh_token : RefreshTokenRow → Action World RefreshTokenRecord
insert_refresh_token row = do
  users ← gets (λ w. w.db.users)
  rows ← gets (λ w. w.db.refresh_tokens)
  if too_long row.hash
      then refuse data_error
      else if any (clashes row) rows || not (any (λ u. u.id == row.user_id) users)
      then refuse integrity_error
      else do set_refresh_tokens (row ∷ rows); pure (token_to_domain row)

unfoldable pub get_refresh_token_by_hash : String → Action World (Option RefreshTokenRecord)
get_refresh_token_by_hash token_hash = do
  rows ← gets (λ w. w.db.refresh_tokens)
  row ← scalar_one_or_none (select (λ r. str_eq r.hash token_hash) rows)
  pure (option_map token_to_domain row)

unfoldable pub get_refresh_token_by_id : Uuid → Action World (Option RefreshTokenRecord)
get_refresh_token_by_id token_id = do
  rows ← gets (λ w. w.db.refresh_tokens)
  row ← scalar_one_or_none (select (λ r. r.id == token_id) rows)
  pure (option_map token_to_domain row)

unfoldable pub get_active_refresh_token_by_family : Uuid → Action World (Option RefreshTokenRecord)
get_active_refresh_token_by_family family_id = do
  rows ← gets (λ w. w.db.refresh_tokens)
  row ← scalar_one_or_none (select (is_active_in family_id) rows)
  pure (option_map token_to_domain row)

-- `UPDATE refresh_tokens SET … WHERE … RETURNING …`: the new rows, and those that changed.
unfoldable pub update_tokens :
    (RefreshTokenRow → Bool)
    → (RefreshTokenRow → RefreshTokenRow)
    → Action World (List RefreshTokenRow)
update_tokens chosen change = do
  rows ← gets (λ w. w.db.refresh_tokens)
  set_refresh_tokens (update_where chosen change rows)
  pure (map change (select chosen rows))

abbrev pub replace_with : Uuid → DateTime → RefreshTokenRow → RefreshTokenRow
replace_with replaced_by revoked_at r = record r {
  replaced_by = some replaced_by;
  revoked_at = some revoked_at;
}

abbrev pub revoke_at : DateTime → RefreshTokenRow → RefreshTokenRow
revoke_at revoked_at r = record r { revoked_at = some revoked_at }

unfoldable pub mark_refresh_token_replaced :
    Uuid → Uuid → DateTime → Action World (Option RefreshTokenRecord)
mark_refresh_token_replaced token_id replaced_by revoked_at = do
  changed ← update_tokens (λ r. r.id == token_id) (replace_with replaced_by revoked_at)
  row ← scalar_one_or_none changed
  pure (option_map token_to_domain row)

unfoldable pub revoke_refresh_token : Uuid → DateTime → Action World (Option RefreshTokenRecord)
revoke_refresh_token token_id revoked_at = do
  changed ← update_tokens (λ r. r.id == token_id) (revoke_at revoked_at)
  row ← scalar_one_or_none changed
  pure (option_map token_to_domain row)

abbrev pub is_live_in : Uuid → RefreshTokenRow → Bool
is_live_in family_id r = r.family_id == family_id && not (is_some r.revoked_at)

unfoldable pub revoke_refresh_token_family : Uuid → DateTime → Action World ℕ
revoke_refresh_token_family family_id revoked_at = do
  changed ← update_tokens (is_live_in family_id) (revoke_at revoked_at)
  pure (length changed)

-- `ORDER BY issued_at ASC`
abbrev pub insert_by_issued_at : RefreshTokenRow → List RefreshTokenRow → List RefreshTokenRow
insert_by_issued_at row [] = row ∷ []
insert_by_issued_at row (r ∷ rows) =
    let rest = insert_by_issued_at row rows in
    if leb row.issued_at r.issued_at then row ∷ r ∷ rows else r ∷ rest

abbrev pub sort_by_issued_at : List RefreshTokenRow → List RefreshTokenRow
sort_by_issued_at [] = []
sort_by_issued_at (row ∷ rows) = insert_by_issued_at row (sort_by_issued_at rows)

unfoldable pub get_refresh_token_family_state : Uuid → Action World (List RefreshTokenRecord)
get_refresh_token_family_state family_id = do
  rows ← gets (λ w. w.db.refresh_tokens)
  pure (map token_to_domain (sort_by_issued_at (select (λ r. r.family_id == family_id) rows)))
