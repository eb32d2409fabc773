-- ===== src/Auth/Invariant/Rows.antt =====
-- Inserting and updating rows keeps them apart.
use ai_backend_foundation.Auth.Invariant.{IsConsistent, TokensApart, UsersApart}
use ai_backend_foundation.Auth.Persistence.{clashes, is_active_in}
use ai_backend_foundation.Auth.Persistence.Writes.{rows_with}
use ai_backend_foundation.Database.{Database, RefreshTokenRow, UserRow}
use ai_backend_foundation.Prelude.{
  All, All-of_any, AllPairs, AtMostOne, AtMostOne-select, Bool, List, String, [], any, arith,
  eq_iff, false, if◌then◌else◌, none, select, str_eq, update_where, ◌==◌, ◌||◌, ◌∷◌, ◌≡◌,
}
use ai_backend_foundation.Shared.Types.{Uuid}

UsersApart-of_test :
    (row r : UserRow) → (r.id == row.id || str_eq r.email row.email) ≡ false → UsersApart row r
UsersApart-of_test row r h = ground (arith, eq_iff r.email row.email)

pub UsersApart-insert :
    (row : UserRow) (rows : List UserRow)
    → any (λ r. r.id == row.id || str_eq r.email row.email) rows ≡ false
    → All (UsersApart row) rows
UsersApart-insert row rows h =
    All-of_any (λ (r : UserRow). r.id == row.id || str_eq r.email row.email) (UsersApart row)
      (UsersApart-of_test row) rows h

TokensApart-of_test : (row r : RefreshTokenRow) → clashes row r ≡ false → TokensApart row r
TokensApart-of_test row r h = ground (arith, eq_iff r.hash row.hash)

pub TokensApart-insert :
    (row : RefreshTokenRow) (rows : List RefreshTokenRow)
    → any (clashes row) rows ≡ false
    → All (TokensApart row) rows
TokensApart-insert row rows h =
    All-of_any (clashes row) (TokensApart row) (TokensApart-of_test row) rows h

-- An update that changes nothing the constraints are about, but may set a replacement.
pub record KeepsKeys (f : RefreshTokenRow → RefreshTokenRow) : Type 0 where
  pub id : (r : RefreshTokenRow) → (f r).id ≡ r.id
  pub user_id : (r : RefreshTokenRow) → (f r).user_id ≡ r.user_id
  pub family_id : (r : RefreshTokenRow) → (f r).family_id ≡ r.family_id
  pub hash : (r : RefreshTokenRow) → (f r).hash ≡ r.hash
  pub replaced_by : (r : RefreshTokenRow) → (f r).replaced_by ≡ none → r.replaced_by ≡ none

module _ (p : RefreshTokenRow → Bool) (f : RefreshTokenRow → RefreshTokenRow)
    (k : KeepsKeys f) where
  abbrev updated : RefreshTokenRow → RefreshTokenRow
  updated r = if p r then f r else r

  TokensApart-updated :
      (a b : RefreshTokenRow) → TokensApart a b → TokensApart (updated a) (updated b)
  TokensApart-updated a b h = ground (
    arith,
    k.id a,
    k.id b,
    k.hash a,
    k.hash b,
    k.family_id a,
    k.family_id b,
    k.replaced_by a,
    k.replaced_by b,
  )

  All-TokensApart-updated :
      (a : RefreshTokenRow) (rows : List RefreshTokenRow)
      → All (TokensApart a) rows
      → All (TokensApart (updated a)) (update_where p f rows)
  All-TokensApart-updated a [] h = tt
  All-TokensApart-updated a (b ∷ rows) (q, h) =
      (TokensApart-updated a b q, All-TokensApart-updated a rows h)

  pub TokensApart-update_where :
      (rows : List RefreshTokenRow)
      → AllPairs TokensApart rows
      → AllPairs TokensApart (update_where p f rows)
  TokensApart-update_where [] h = tt
  TokensApart-update_where (r ∷ rows) (q, h) =
      (All-TokensApart-updated r rows q, TokensApart-update_where rows h)

-- In consistent tables an id, an email and a family's place are found at most once.
module _ (d : Database) (v : IsConsistent d) where
  pub one_user_by_id : (id : Uuid) → AtMostOne (select (λ r. r.id == id) d.users)
  one_user_by_id id =
      AtMostOne-select UsersApart (λ (r : UserRow). r.id == id) (λ x y h px py. ground arith)
        d.users v.users_apart

  pub one_user_by_email : (email : String) → AtMostOne (select (λ r. str_eq r.email email) d.users)
  one_user_by_email email =
      AtMostOne-select UsersApart (λ (r : UserRow). str_eq r.email email)
        (λ x y h px py. ground (arith, eq_iff x.email email, eq_iff y.email email)) d.users
        v.users_apart

  pub one_token_by_id : (id : Uuid) → AtMostOne (rows_with id d)
  one_token_by_id id =
      AtMostOne-select TokensApart (λ (r : RefreshTokenRow). r.id == id)
        (λ x y h px py. ground arith) d.refresh_tokens v.tokens_apart

  -- A family has at most one token that was not replaced.
  pub one_active_token :
      (family_id : Uuid) → AtMostOne (select (is_active_in family_id) d.refresh_tokens)
  one_active_token family_id =
      AtMostOne-select TokensApart (is_active_in family_id) (λ x y h px py. ground arith)
        d.refresh_tokens v.tokens_apart
