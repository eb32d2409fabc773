-- ===== src/Api/Pagination.antt =====
-- app/api/pagination.py and app/shared/pagination.py. The query string gives the limit as any
-- integer.
use ai_backend_foundation.Action.{Outcome, ok, raised}
use ai_backend_foundation.Prelude.{
  Option, String, [], arith, eq_iff, if◌then◌else◌, is_empty, ltb, negsuc, none, pos, some, ℕ, ℤ,
  ◌↔◌, ◌≡◌, ◌≢◌, ◌≤◌, ◌⊎◌,
}
use ai_backend_foundation.Shared.Errors.{Exception, app, validation_error}

pub record CursorParams : Type 0 where
  pub cursor : Option String
  pub limit : ℕ

abbrev pub limit_min : ℕ
limit_min = 1

abbrev pub limit_max : ℕ
limit_max = 100

abbrev pub default_limit : ℕ
default_limit = 20

abbrev pub validation_failure : String → Exception
validation_failure detail = app (validation_error (some detail) [])

abbrev pub check_cursor : Option String → ℕ → Outcome CursorParams
check_cursor none limit = ok (record { cursor = none; limit = limit })
check_cursor (some cursor) limit =
    if is_empty cursor
    then raised (validation_failure "Cursor cannot be empty")
    else ok (record { cursor = some cursor; limit = limit })

abbrev pub check_limit : Option String → ℤ → Outcome CursorParams
check_limit cursor (pos limit) =
    if ltb limit limit_min
    then raised (validation_failure "Limit must be at least 1")
    else if ltb limit_max limit
    then raised (validation_failure "Limit cannot exceed 100")
    else check_cursor cursor limit
check_limit cursor (negsuc n) = raised (validation_failure "Limit must be at least 1")

-- The query string may give no limit.
unfoldable pub get_cursor_params : Option String → Option ℤ → Outcome CursorParams
get_cursor_params cursor none = check_limit cursor (pos default_limit)
get_cursor_params cursor (some limit) = check_limit cursor limit

-- Pagination parameters are accepted exactly when the limit, 20 by default, is from 1 to 100 and the
-- cursor, if there is one, is not empty; they are passed on unchanged.
pub get_cursor_params_iff :
    (cursor : Option String) (limit : Option ℤ) (p : CursorParams)
    → (get_cursor_params cursor limit ≡ ok p) ↔ (
        (p.cursor ≡ cursor)
        × (1 ≤ p.limit)
        × (p.limit ≤ 100)
        × (cursor ≢ some "")
        × ((limit ≡ some (pos p.limit)) ⊎ ((limit ≡ none) × (p.limit ≡ 20))))
unfolding get_cursor_params
get_cursor_params_iff none none p = ground arith
get_cursor_params_iff (some c) none p = ground (arith, eq_iff c "")
get_cursor_params_iff none (some (pos n)) p = ground arith
get_cursor_params_iff (some c) (some (pos n)) p = ground (arith, eq_iff c "")
get_cursor_params_iff cursor (some (negsuc n)) p = ground arith
