-- ===== src/Auth/Invariant.antt =====
-- The invariant of the tables `users` and `refresh_tokens`: what the constraints of the schema and
-- the order of the statements in app/auth/service.py keep true.
pub mod Rows
pub mod Statements
pub mod Service
use ai_backend_foundation.Prelude.{
  ◌≡◌, ◌≢◌, Bool, true, none, List, All, AllPairs, any, ◌==◌, is_some,
}
use ai_backend_foundation.Database.{UserRow, RefreshTokenRow, Database, World}

abbrev pub UsersApart : UserRow → UserRow → Type 0
UsersApart a b = (a.id ≢ b.id) × (a.email ≢ b.email)

-- Two tokens differ in id and hash, and at most one of a family has no replacement.
abbrev pub TokensApart : RefreshTokenRow → RefreshTokenRow → Type 0
TokensApart a b =
    (a.id ≢ b.id)
    × (a.hash ≢ b.hash)
    × (a.family_id ≡ b.family_id → a.replaced_by ≡ none → b.replaced_by ≢ none)

-- A replaced token is revoked.
abbrev pub RevokedIfReplaced : RefreshTokenRow → Type 0
RevokedIfReplaced r = is_some r.replaced_by ≡ true → is_some r.revoked_at ≡ true

abbrev pub HasOwner : List UserRow → RefreshTokenRow → Type 0
HasOwner users r = any (λ u. u.id == r.user_id) users ≡ true

pub record IsConsistent (d : Database) : Type 0 where
  pub users_apart : AllPairs UsersApart d.users
  pub tokens_apart : AllPairs TokensApart d.refresh_tokens
  pub revoked : All RevokedIfReplaced d.refresh_tokens
  pub owned : All (HasOwner d.users) d.refresh_tokens

-- Both what is committed and what the session sees are consistent.
pub record IsValid (w : World) : Type 0 where
  pub committed : IsConsistent w.committed
  pub db : IsConsistent w.db
