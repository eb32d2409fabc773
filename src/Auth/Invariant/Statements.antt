-- ===== src/Auth/Invariant/Statements.antt =====
-- Each statement of app/auth/persistence.py keeps the invariant, also where the database refuses it.
use ai_backend_foundation.Action.{gets, pure, ◌>>=◌}
use ai_backend_foundation.Action.Rules.{Keeps, Keeps-bind, keeps_rules}
use ai_backend_foundation.Auth.Invariant.{HasOwner, IsConsistent, IsValid, RevokedIfReplaced}
use ai_backend_foundation.Auth.Invariant.Rows.{
  KeepsKeys, TokensApart-insert, TokensApart-update_where, UsersApart-insert,
}
use ai_backend_foundation.Auth.Persistence.{
  get_refresh_token_by_id, get_user_by_email, get_user_by_id, insert_refresh_token, insert_user,
  mark_refresh_token_replaced, replace_with, revoke_at, revoke_refresh_token,
  revoke_refresh_token_family, scalar_one_or_none, update_tokens,
}
use ai_backend_foundation.Database.{
  Database, RefreshTokenRow, UserRow, ask, commit, log_event, refuse, set_refresh_tokens, set_users,
}
use ai_backend_foundation.Prelude.{
  All-update_where, All-mono, Bool, List, String, [], any, arith, false, refl, str_eq, ℕ, ◌==◌,
  ◌||◌, ◌∷◌, ◌≡◌,
}
use ai_backend_foundation.Shared.Types.{DateTime, Uuid}

pub ask-IsValid : {A : Type 0} (f : ℕ → A) → Keeps IsValid (ask f)
unfolding ask
ask-IsValid f = record { at = λ w v. record { committed = v.committed; db = v.db } }

pub log_event-IsValid : (event : String) → Keeps IsValid (log_event event)
unfolding log_event
log_event-IsValid event = record { at = λ w v. record { committed = v.committed; db = v.db } }

pub commit-IsValid : Keeps IsValid commit
unfolding commit
commit-IsValid = record { at = λ w v. ground arith }

HasOwner-cons :
    (row : UserRow) (users : List UserRow) (r : RefreshTokenRow)
    → HasOwner users r
    → HasOwner (row ∷ users) r
HasOwner-cons row users r h = ground arith

pub insert_user-IsConsistent :
    (row : UserRow) (d : Database)
    → any (λ r. r.id == row.id || str_eq r.email row.email) d.users ≡ false
    → IsConsistent d
    → IsConsistent (record d { users = row ∷ d.users })
insert_user-IsConsistent row d h c = record {
  users_apart = (UsersApart-insert row d.users h, c.users_apart);
  tokens_apart = c.tokens_apart;
  revoked = c.revoked;
  owned = All-mono (HasOwner-cons row d.users) d.refresh_tokens c.owned;
}

pub insert_user-IsValid : (row : UserRow) → Keeps IsValid (insert_user row)
unfolding insert_user refuse set_users gets pure ◌>>=◌
insert_user-IsValid row = record { at = λ w v. ground (arith, insert_user-IsConsistent row w.db) }

pub insert_refresh_token-IsValid :
    (row : RefreshTokenRow) → RevokedIfReplaced row → Keeps IsValid (insert_refresh_token row)
unfolding insert_refresh_token refuse set_refresh_tokens gets pure ◌>>=◌
insert_refresh_token-IsValid row h = record {
  at = λ w v. ground (arith, TokensApart-insert row w.db.refresh_tokens);
}

pub update_tokens-IsValid :
    (p : RefreshTokenRow → Bool) (f : RefreshTokenRow → RefreshTokenRow)
    → KeepsKeys f
    → ((r : RefreshTokenRow) → RevokedIfReplaced r → RevokedIfReplaced (f r))
    → Keeps IsValid (update_tokens p f)
unfolding update_tokens set_refresh_tokens gets pure ◌>>=◌
update_tokens-IsValid p f k revoked = record {
  at = λ w v. record {
    committed = v.committed;
    db = record {
      users_apart = v.db.users_apart;
      tokens_apart = TokensApart-update_where p f k w.db.refresh_tokens v.db.tokens_apart;
      revoked = All-update_where RevokedIfReplaced p f revoked w.db.refresh_tokens v.db.revoked;
      owned =
          All-update_where (HasOwner w.db.users) p f (λ r h. ground (arith, k.user_id r))
            w.db.refresh_tokens v.db.owned;
    };
  };
}

scalar_one_or_none-IsValid : {A : Type 0} (rows : List A) → Keeps IsValid (scalar_one_or_none rows)
unfolding scalar_one_or_none
scalar_one_or_none-IsValid [] = search keeps_rules
scalar_one_or_none-IsValid (row ∷ []) = search keeps_rules
scalar_one_or_none-IsValid (row ∷ next ∷ rows) = search keeps_rules

replace_with-KeepsKeys : (id : Uuid) (at : DateTime) → KeepsKeys (replace_with id at)
replace_with-KeepsKeys id at = record {
  id = λ r. refl;
  user_id = λ r. refl;
  family_id = λ r. refl;
  hash = λ r. refl;
  replaced_by = λ r h. cc h;
}

revoke_at-KeepsKeys : (at : DateTime) → KeepsKeys (revoke_at at)
revoke_at-KeepsKeys at = record {
  id = λ r. refl;
  user_id = λ r. refl;
  family_id = λ r. refl;
  hash = λ r. refl;
  replaced_by = λ r h. h;
}

ruleset statement_rules = (
  keeps_rules, update_tokens-IsValid, scalar_one_or_none-IsValid, replace_with-KeepsKeys,
  revoke_at-KeepsKeys,
)

pub get_user_by_id-IsValid : (id : Uuid) → Keeps IsValid (get_user_by_id id)
unfolding get_user_by_id
get_user_by_id-IsValid id = search statement_rules

pub get_user_by_email-IsValid : (email : String) → Keeps IsValid (get_user_by_email email)
unfolding get_user_by_email
get_user_by_email-IsValid email = search statement_rules

pub get_refresh_token_by_id-IsValid : (id : Uuid) → Keeps IsValid (get_refresh_token_by_id id)
unfolding get_refresh_token_by_id
get_refresh_token_by_id-IsValid id = search statement_rules

pub mark_refresh_token_replaced-IsValid :
    (id new : Uuid) (at : DateTime) → Keeps IsValid (mark_refresh_token_replaced id new at)
unfolding mark_refresh_token_replaced
mark_refresh_token_replaced-IsValid id new at =
    Keeps-bind _ _ (update_tokens-IsValid _ _ (replace_with-KeepsKeys new at) (λ r h e. refl))
      (λ changed. search statement_rules)

pub revoke_refresh_token-IsValid :
    (id : Uuid) (at : DateTime) → Keeps IsValid (revoke_refresh_token id at)
unfolding revoke_refresh_token
revoke_refresh_token-IsValid id at =
    Keeps-bind _ _ (update_tokens-IsValid _ _ (revoke_at-KeepsKeys at) (λ r h e. refl))
      (λ changed. search statement_rules)

pub revoke_refresh_token_family-IsValid :
    (family_id : Uuid) (at : DateTime) → Keeps IsValid (revoke_refresh_token_family family_id at)
unfolding revoke_refresh_token_family
revoke_refresh_token_family-IsValid family_id at =
    Keeps-bind _ _ (update_tokens-IsValid _ _ (revoke_at-KeepsKeys at) (λ r h e. refl))
      (λ changed. search statement_rules)

pub ruleset valid_statements = (
  keeps_rules, ask-IsValid, log_event-IsValid, commit-IsValid, insert_user-IsValid,
  get_user_by_id-IsValid, get_user_by_email-IsValid, get_refresh_token_by_id-IsValid,
  mark_refresh_token_replaced-IsValid, revoke_refresh_token-IsValid,
  revoke_refresh_token_family-IsValid, insert_refresh_token-IsValid,
)
