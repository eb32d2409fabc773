-- ===== src/Auth/Atomic/Statements.antt =====
-- No statement but a commit touches the committed tables: the statements of
-- app/auth/persistence.py and the parts of `AuthService` that only read and write the session.
use ai_backend_foundation.Action.{Outcome, ok, raised}
use ai_backend_foundation.Action.Rules.{Keeps, keeps_rules}
use ai_backend_foundation.Auth.Atomic.{Uncommitted}
use ai_backend_foundation.Auth.Domain.{UserAuthRecord}
use ai_backend_foundation.Auth.Persistence.{
  get_refresh_token_by_id, get_user_by_email, get_user_by_id, insert_refresh_token, insert_user,
  mark_refresh_token_replaced, revoke_refresh_token, revoke_refresh_token_family,
  scalar_one_or_none, update_tokens,
}
use ai_backend_foundation.Auth.Ports.{Claims}
use ai_backend_foundation.Auth.Service.{
  AuthService, claims_or_raise, issue_tokens, or_invalid, or_new, or_raise, presented_record,
  uuid_of,
}
use ai_backend_foundation.Database.{
  Database, RefreshTokenRow, UserRow, ask, log_event, refuse, set_refresh_tokens, set_users,
}
use ai_backend_foundation.Prelude.{Bool, List, Option, String, [], none, some, ℕ, ◌∷◌}
use ai_backend_foundation.Shared.Errors.{Exception}
use ai_backend_foundation.Shared.Types.{DateTime, Uuid}
use ai_backend_foundation.Shared.Values.{Value, flag, null, number, text, texts}

module _ (d : Database) where
  pub ask-Uncommitted : {A : Type 0} (f : ℕ → A) → Keeps (Uncommitted d) (ask f)
  unfolding ask
  ask-Uncommitted f = record { at = λ w h. h }

  pub log_event-Uncommitted : (event : String) → Keeps (Uncommitted d) (log_event event)
  unfolding log_event
  log_event-Uncommitted event = record { at = λ w h. h }

  pub refuse-Uncommitted : {A : Type 0} (e : Exception) → Keeps (Uncommitted d) (refuse {A = A} e)
  unfolding refuse
  refuse-Uncommitted e = record { at = λ w h. h }

  pub set_users-Uncommitted : (rows : List UserRow) → Keeps (Uncommitted d) (set_users rows)
  unfolding set_users
  set_users-Uncommitted rows = record { at = λ w h. h }

  pub set_refresh_tokens-Uncommitted :
      (rows : List RefreshTokenRow) → Keeps (Uncommitted d) (set_refresh_tokens rows)
  unfolding set_refresh_tokens
  set_refresh_tokens-Uncommitted rows = record { at = λ w h. h }

  pub scalar_one_or_none-Uncommitted :
      {A : Type 0} (rows : List A) → Keeps (Uncommitted d) (scalar_one_or_none rows)
  unfolding scalar_one_or_none
  scalar_one_or_none-Uncommitted [] = search keeps_rules
  scalar_one_or_none-Uncommitted (row ∷ []) = search keeps_rules
  scalar_one_or_none-Uncommitted (row ∷ next ∷ rows) = search keeps_rules

  pub ruleset uncommitted_rules = (
    keeps_rules, ask-Uncommitted, log_event-Uncommitted, refuse-Uncommitted, set_users-Uncommitted,
    set_refresh_tokens-Uncommitted, scalar_one_or_none-Uncommitted,
  )

  pub update_tokens-Uncommitted :
      (p : RefreshTokenRow → Bool) (f : RefreshTokenRow → RefreshTokenRow)
      → Keeps (Uncommitted d) (update_tokens p f)
  unfolding update_tokens
  update_tokens-Uncommitted p f = search uncommitted_rules

  pub insert_user-Uncommitted : (row : UserRow) → Keeps (Uncommitted d) (insert_user row)
  unfolding insert_user
  insert_user-Uncommitted row = search uncommitted_rules depth 12

  pub insert_refresh_token-Uncommitted :
      (row : RefreshTokenRow) → Keeps (Uncommitted d) (insert_refresh_token row)
  unfolding insert_refresh_token
  insert_refresh_token-Uncommitted row = search uncommitted_rules depth 12

  pub get_user_by_id-Uncommitted : (id : Uuid) → Keeps (Uncommitted d) (get_user_by_id id)
  unfolding get_user_by_id
  get_user_by_id-Uncommitted id = search uncommitted_rules

  pub get_user_by_email-Uncommitted :
      (email : String) → Keeps (Uncommitted d) (get_user_by_email email)
  unfolding get_user_by_email
  get_user_by_email-Uncommitted email = search uncommitted_rules

  pub get_refresh_token_by_id-Uncommitted :
      (id : Uuid) → Keeps (Uncommitted d) (get_refresh_token_by_id id)
  unfolding get_refresh_token_by_id
  get_refresh_token_by_id-Uncommitted id = search uncommitted_rules

  pub mark_refresh_token_replaced-Uncommitted :
      (id new : Uuid) (at : DateTime)
      → Keeps (Uncommitted d) (mark_refresh_token_replaced id new at)
  unfolding mark_refresh_token_replaced
  mark_refresh_token_replaced-Uncommitted id new at =
      search (uncommitted_rules, update_tokens-Uncommitted)

  pub revoke_refresh_token-Uncommitted :
      (id : Uuid) (at : DateTime) → Keeps (Uncommitted d) (revoke_refresh_token id at)
  unfolding revoke_refresh_token
  revoke_refresh_token-Uncommitted id at = search (uncommitted_rules, update_tokens-Uncommitted)

  pub revoke_refresh_token_family-Uncommitted :
      (family_id : Uuid) (at : DateTime)
      → Keeps (Uncommitted d) (revoke_refresh_token_family family_id at)
  unfolding revoke_refresh_token_family
  revoke_refresh_token_family-Uncommitted family_id at =
      search (uncommitted_rules, update_tokens-Uncommitted)

  pub or_raise-Uncommitted :
      {A : Type 0} (e : Exception) (o : Option A) → Keeps (Uncommitted d) (or_raise e o)
  unfolding or_raise
  or_raise-Uncommitted e none = search keeps_rules
  or_raise-Uncommitted e (some a) = search keeps_rules

  pub or_invalid-Uncommitted : (o : Option UserAuthRecord) → Keeps (Uncommitted d) (or_invalid o)
  unfolding or_invalid
  or_invalid-Uncommitted none = search keeps_rules
  or_invalid-Uncommitted (some user) = search keeps_rules

  pub ruleset quiet_statements = (
    uncommitted_rules, insert_user-Uncommitted, insert_refresh_token-Uncommitted,
    get_user_by_id-Uncommitted, get_user_by_email-Uncommitted, get_refresh_token_by_id-Uncommitted,
    mark_refresh_token_replaced-Uncommitted, revoke_refresh_token-Uncommitted,
    revoke_refresh_token_family-Uncommitted, or_raise-Uncommitted, or_invalid-Uncommitted,
  )

  module _ (self : AuthService) where
    pub uuid_of-Uncommitted : (v : Option Value) → Keeps (Uncommitted d) (uuid_of self v)
    unfolding uuid_of
    uuid_of-Uncommitted (some (text s)) = search or_raise-Uncommitted
    uuid_of-Uncommitted (some null) = search keeps_rules
    uuid_of-Uncommitted (some (flag b)) = search keeps_rules
    uuid_of-Uncommitted (some (number n)) = search keeps_rules
    uuid_of-Uncommitted (some (texts ts)) = search keeps_rules
    uuid_of-Uncommitted none = search keeps_rules

    pub or_new-Uncommitted : (o : Option Uuid) → Keeps (Uncommitted d) (or_new self o)
    unfolding or_new
    or_new-Uncommitted none = search uncommitted_rules
    or_new-Uncommitted (some id) = search uncommitted_rules

    pub issue_tokens-Uncommitted :
        (user : UserAuthRecord) (family_id token_id : Option Uuid)
        → Keeps (Uncommitted d) (issue_tokens self user family_id token_id)
    unfolding issue_tokens
    issue_tokens-Uncommitted user family_id token_id =
        search (quiet_statements, or_new-Uncommitted) depth 20

    pub claims_or_raise-Uncommitted :
        (r : Outcome Claims) → Keeps (Uncommitted d) (claims_or_raise self r)
    unfolding claims_or_raise
    claims_or_raise-Uncommitted (ok claims) = search uncommitted_rules
    claims_or_raise-Uncommitted (raised e) = search uncommitted_rules

    pub presented_record-Uncommitted :
        (token : String) → Keeps (Uncommitted d) (presented_record self token)
    unfolding presented_record
    presented_record-Uncommitted token =
        search (quiet_statements, claims_or_raise-Uncommitted, uuid_of-Uncommitted) depth 20
