-- ===== src/Auth/Invariant/Service.antt =====
-- Each method of `AuthService` keeps the invariant, whether it returns or raises.
use ai_backend_foundation.Action.{Outcome, ok, raised}
use ai_backend_foundation.Action.Rules.{Keeps, keeps_rules}
use ai_backend_foundation.Auth.Domain.{Credentials, RefreshTokenRecord, UserAuthRecord}
use ai_backend_foundation.Auth.Invariant.{IsValid, RevokedIfReplaced}
use ai_backend_foundation.Auth.Invariant.Statements.{valid_statements}
use ai_backend_foundation.Auth.Ports.{Claims}
use ai_backend_foundation.Auth.Service.{
  AuthService, check_reuse, claims_or_raise, issue_tokens, login, logout, logout_verified,
  or_invalid, or_new, or_raise, presented_record, refresh, register, report_reuse, revoke_claimed,
  rotate, uuid_of,
}
use ai_backend_foundation.Database.{RefreshTokenRow}
use ai_backend_foundation.Prelude.{Option, String, none, some, ◌≡◌}
use ai_backend_foundation.Shared.Errors.{Exception}
use ai_backend_foundation.Shared.Types.{Uuid}
use ai_backend_foundation.Shared.Values.{Value, flag, null, number, text, texts}

or_raise-IsValid : {A : Type 0} (e : Exception) (o : Option A) → Keeps IsValid (or_raise e o)
unfolding or_raise
or_raise-IsValid e none = search keeps_rules
or_raise-IsValid e (some a) = search keeps_rules

or_invalid-IsValid : (o : Option UserAuthRecord) → Keeps IsValid (or_invalid o)
unfolding or_invalid
or_invalid-IsValid none = search keeps_rules
or_invalid-IsValid (some user) = search keeps_rules

module _ (self : AuthService) where
  uuid_of-IsValid : (v : Option Value) → Keeps IsValid (uuid_of self v)
  unfolding uuid_of
  uuid_of-IsValid (some (text s)) = search or_raise-IsValid
  uuid_of-IsValid (some null) = search keeps_rules
  uuid_of-IsValid (some (flag b)) = search keeps_rules
  uuid_of-IsValid (some (number n)) = search keeps_rules
  uuid_of-IsValid (some (texts ts)) = search keeps_rules
  uuid_of-IsValid none = search keeps_rules

  or_new-IsValid : (o : Option Uuid) → Keeps IsValid (or_new self o)
  unfolding or_new
  or_new-IsValid none = search valid_statements
  or_new-IsValid (some id) = search valid_statements

  -- Registering a user keeps the invariant.
  pub register-IsValid : (email password : String) → Keeps IsValid (register self email password)
  unfolding register
  register-IsValid email password = search valid_statements depth 12

  fresh-RevokedIfReplaced : (r : RefreshTokenRow) → r.replaced_by ≡ none → RevokedIfReplaced r
  fresh-RevokedIfReplaced r h = λ e. cc (h, e)

  issue_tokens-IsValid :
      (user : UserAuthRecord) (family_id token_id : Option Uuid)
      → Keeps IsValid (issue_tokens self user family_id token_id)
  unfolding issue_tokens
  issue_tokens-IsValid user family_id token_id =
      search (valid_statements, or_new-IsValid, fresh-RevokedIfReplaced) depth 20

  ruleset service_rules = (
    valid_statements, or_raise-IsValid, or_invalid-IsValid, uuid_of-IsValid, issue_tokens-IsValid,
  )

  -- Logging in keeps the invariant.
  pub login-IsValid : (creds : Credentials) → Keeps IsValid (login self creds)
  unfolding login
  login-IsValid creds = search service_rules depth 12

  claims_or_raise-IsValid : (r : Outcome Claims) → Keeps IsValid (claims_or_raise self r)
  unfolding claims_or_raise
  claims_or_raise-IsValid (ok claims) = search service_rules
  claims_or_raise-IsValid (raised e) = search service_rules

  presented_record-IsValid : (token : String) → Keeps IsValid (presented_record self token)
  unfolding presented_record
  presented_record-IsValid token = search (service_rules, claims_or_raise-IsValid) depth 20

  report_reuse-IsValid : (r : RefreshTokenRecord) → Keeps IsValid (report_reuse self r)
  unfolding report_reuse
  report_reuse-IsValid r = search service_rules depth 12

  check_reuse-IsValid : (r : RefreshTokenRecord) → Keeps IsValid (check_reuse self r)
  unfolding check_reuse
  check_reuse-IsValid r = search (service_rules, report_reuse-IsValid)

  rotate-IsValid : (r : RefreshTokenRecord) → Keeps IsValid (rotate self r)
  unfolding rotate
  rotate-IsValid r = search service_rules depth 20

  -- Rotating a refresh token keeps the invariant.
  pub refresh-IsValid : (token : String) → Keeps IsValid (refresh self token)
  unfolding refresh
  refresh-IsValid token =
      search (service_rules, presented_record-IsValid, check_reuse-IsValid, rotate-IsValid)

  revoke_claimed-IsValid : (claims : Claims) → Keeps IsValid (revoke_claimed self claims)
  unfolding revoke_claimed
  revoke_claimed-IsValid claims = search service_rules depth 12

  logout_verified-IsValid : (r : Outcome Claims) → Keeps IsValid (logout_verified self r)
  unfolding logout_verified
  logout_verified-IsValid (ok claims) = search revoke_claimed-IsValid
  logout_verified-IsValid (raised e) = search service_rules

  -- Logging out keeps the invariant.
  pub logout-IsValid : (token : String) → Keeps IsValid (logout self token)
  unfolding logout
  logout-IsValid token = search (service_rules, logout_verified-IsValid)
