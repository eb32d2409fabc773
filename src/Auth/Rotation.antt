-- ===== src/Auth/Rotation.antt =====
-- What a successful `refresh` of app/auth/service.py did: the presented token was good, and it is
-- replaced by one new token of its family.
pub mod Issue
pub mod Presented
pub mod Success
pub mod Reuse
pub mod Returns
pub mod Locked
use ai_backend_foundation.Action.{ok}
use ai_backend_foundation.Auth.Domain.{
  AccessToken, RefreshToken, RefreshTokenRecord, UserAuthRecord,
}
use ai_backend_foundation.Auth.Persistence.{option_map, token_to_domain}
use ai_backend_foundation.Auth.Persistence.Writes.{replaced_in, rows_with}
use ai_backend_foundation.Auth.Ports.{Claims}
use ai_backend_foundation.Auth.Service.{AuthService, access_claims, refresh, refresh_claims}
use ai_backend_foundation.Database.{Database, RefreshTokenRow, World}
use ai_backend_foundation.Prelude.{
  String, false, first, is_empty, is_some, none, some, suc, true, ℕ, ◌+◌, ◌∷◌, ◌≡◌, ◌≤◌,
}
use ai_backend_foundation.Shared.Types.{DateTime, Uuid, days, minutes}
use ai_backend_foundation.Shared.Values.{get_claim, is_text, text}

-- A new row of `refresh_tokens`, as `_issue_tokens` builds it.
abbrev pub new_row : AuthService → Uuid → Uuid → Uuid → String → DateTime → RefreshTokenRow
new_row self user_id family_id id hash now = record {
  id = id;
  user_id = user_id;
  family_id = family_id;
  hash = hash;
  issued_at = now;
  expires_at = now + days self.refresh_token_expires_days;
  revoked_at = none;
  replaced_by = none;
}

-- The tokens that the caller gets.
abbrev pub token_pair : AuthService → String → String → DateTime → AccessToken × RefreshToken
token_pair self access refresh now = (
  record { token = access; expires_at = now + minutes self.access_token_expires_minutes },
  record { token = refresh; expires_at = now + days self.refresh_token_expires_days },
)

-- From the tables `d` the token of the record `r` was rotated, and `tokens` came back. The question of
-- the number `n` was the time for the check of the expiry; those after it gave the identifier of the
-- new token, the time of the replacement and the time of issue.
pub record IsRotation (self : AuthService) (d : Database) (n : ℕ) (r : RefreshTokenRecord)
    (tokens : AccessToken × RefreshToken) (w : World) : Type 0 where
  pub unrevoked : is_some r.revoked_at ≡ false
  pub unexpired : self.clock.now n ≤ r.expires_at
  pub user : UserAuthRecord
  pub owner : user.id ≡ r.user_id
  pub enabled : user.disabled ≡ false
  pub id : Uuid
  pub drawn : id ≡ self.uuid.uuid4 (suc n)
  pub at : DateTime
  pub replaced_at : at ≡ self.clock.now (suc (suc n))
  pub now : DateTime
  pub issued_at : now ≡ self.clock.now (suc (suc (suc n)))
  pub calls : ℕ × ℕ × ℕ
  pub issued :
      tokens
      ≡ token_pair self
          (self.token_signer.sign calls.0 (access_claims self user now))
          (self.token_signer.sign calls.1 (refresh_claims self user id now))
          now
  pub tables :
      w.committed.refresh_tokens
      ≡ new_row self user.id r.family_id id (self.password_hasher.hash calls.2 tokens.1.token) now
        ∷ (replaced_in d r.id id at).refresh_tokens
  pub users : w.committed.users ≡ d.users

-- The `n`-th answer of the surroundings accepts the text `token`, which stands for the record `r` of
-- the tables `d`.
pub record IsPresented (self : AuthService) (d : Database) (n : ℕ) (token : String)
    (r : RefreshTokenRecord) : Type 0 where
  pub claims : Claims
  pub verified : self.token_signer.verify n token ≡ ok claims
  pub typ : is_text "refresh" (get_claim "typ" claims) ≡ true
  pub jti : String
  pub named : get_claim "jti" claims ≡ some (text jti)
  pub nonempty : is_empty jti ≡ false
  pub id : Uuid
  pub parsed : self.uuid.parse jti ≡ some id
  pub found : option_map token_to_domain (first (rows_with id d)) ≡ some r
  pub hashed : self.password_hasher.verify token r.hash ≡ true
