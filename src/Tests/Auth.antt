-- ===== src/Tests/Auth.antt =====
-- Tests of app/auth and app/users.
use mathlib.Core.Path.{subst}
use ai_backend_foundation.Action.{gets, lift, ok, pure, raise, raise_if, raised, ◌>>=◌}
use ai_backend_foundation.Auth.Api.{
  login_request, logout_request, refresh_request, register_request, run,
}
use ai_backend_foundation.Auth.Api.Sequence.{run-IsConsistent}
use ai_backend_foundation.Auth.Atomic.Service.{refresh-atomic, register-atomic}
use ai_backend_foundation.Auth.Deps.{
  get_current_user, or_unwired, parse_uuid, require_active_user, require_authenticated, tenant_of,
  user_of, verified_claims, verify_user,
}
use ai_backend_foundation.Auth.Deps.CurrentUser.{IsAccepted, get_current_user-IsAccepted}
use ai_backend_foundation.Auth.Domain.{
  AccessToken, AuthenticatedUser, Credentials, RefreshToken, RefreshTokenRecord, UserAuthRecord,
  authenticated_user, invalid_credentials_error, refresh_reuse_detected_error,
}
use ai_backend_foundation.Auth.Invariant.{IsConsistent}
use ai_backend_foundation.Auth.Login.{login-refuses, login-returns, login_row}
use ai_backend_foundation.Auth.Persistence.{
  get_refresh_token_by_id, get_user_by_email, get_user_by_id, insert_refresh_token,
  mark_refresh_token_replaced, revoke_at, scalar_one_or_none, token_to_domain, update_tokens,
  user_to_domain,
}
use ai_backend_foundation.Auth.Persistence.Writes.{family_revoked_in}
use ai_backend_foundation.Auth.Rotation.{IsPresented, IsRotation}
use ai_backend_foundation.Auth.Rotation.Issue.{add_token}
use ai_backend_foundation.Auth.Rotation.Locked.{reuse-locks_family}
use ai_backend_foundation.Auth.Rotation.Returns.Service.{refresh-returns}
use ai_backend_foundation.Auth.Rotation.Reuse.{FamilyRevoked, refresh-reused}
use ai_backend_foundation.Auth.Rotation.Success.{refresh-IsRotation}
use ai_backend_foundation.Auth.Service.{
  check_reuse, claims_or_raise, issue_tokens, login, or_invalid, or_new, or_raise, presented_record,
  refresh, register, rotate, uuid_of,
}
use ai_backend_foundation.Database.{World, ask, commit, log_event, set_refresh_tokens}
use ai_backend_foundation.Prelude.{[], arith, false, none, refl, some, some_eq, sym, ◌∷◌, ◌≡◌, ◌≢◌}
use ai_backend_foundation.Shared.Errors.{app}
use ai_backend_foundation.Shared.Values.{text}
use ai_backend_foundation.Tests.Setup.{
  active_token, alice, service, tables, tables-IsConsistent, unary, used_token, uuids, wiring,
  world,
}
use ai_backend_foundation.Users.Lost.{get_my_profile-lost}
use ai_backend_foundation.Users.Service.{get_my_profile}

abbrev used_record : RefreshTokenRecord
used_record = token_to_domain used_token

used_record-IsPresented : IsPresented service tables 0 "uu" used_record
used_record-IsPresented = record {
  claims = ("typ", text "refresh") ∷ ("jti", text "uu") ∷ [];
  verified = refl;
  typ = refl;
  jti = "uu";
  named = refl;
  nonempty = refl;
  id = 2;
  parsed = refl;
  found = refl;
  hashed = refl;
}

active_record-IsPresented : IsPresented service tables 0 "uuu" (token_to_domain active_token)
active_record-IsPresented = record {
  claims = ("typ", text "refresh") ∷ ("jti", text "uuu") ∷ [];
  verified = refl;
  typ = refl;
  jti = "uuu";
  named = refl;
  nonempty = refl;
  id = 3;
  parsed = refl;
  found = refl;
  hashed = refl;
}

refresh-reused_example :
    ((refresh service "uu" world).0 ≡ raised (app (refresh_reuse_detected_error none)))
    × FamilyRevoked 5 (refresh service "uu" world).1.committed
    × ((refresh service "uu" world).1.committed ≡ family_revoked_in tables 5 1)
refresh-reused_example =
    refresh-reused service world "uu" used_record tables-IsConsistent refl used_record-IsPresented
      refl refl

run-IsConsistent_example :
    IsConsistent
      (run service
        (register_request "bob" "password"
          ∷ login_request "bob" "password"
          ∷ refresh_request "uuu"
          ∷ logout_request "bad"
          ∷ [])
        world).committed
run-IsConsistent_example =
    run-IsConsistent service
      (register_request "bob" "password"
        ∷ login_request "bob" "password"
        ∷ refresh_request "uuu"
        ∷ logout_request "bad"
        ∷ [])
      world tables-IsConsistent

refresh-atomic_example : (refresh service "bad" world).1.committed ≡ tables
unfolding ask claims_or_raise log_event presented_record raise refresh ◌>>=◌
refresh-atomic_example = refresh-atomic service world "bad" refl (λ h. cc)

register-atomic_example : (register service "alice" "password" world).1.committed ≡ tables
unfolding register get_user_by_email gets pure raise_if scalar_one_or_none ◌>>=◌
register-atomic_example = register-atomic service world "alice" "password" (λ h. cc) refl

abbrev rotated : AccessToken × RefreshToken
rotated = (
  record { token = "access"; expires_at = 900_000_004 },
  record { token = unary 22; expires_at = 2_592_000_000_004 },
)

refresh-IsRotation_example :
    (r : RefreshTokenRecord) × IsPresented service tables 0 "uuu" r
    × IsRotation service tables 1 r rotated (refresh service "uuu" world).1
unfolding refresh presented_record ask claims_or_raise pure raise_if uuid_of or_raise check_reuse
    rotate get_refresh_token_by_id get_user_by_id gets scalar_one_or_none or_invalid
    mark_refresh_token_replaced update_tokens set_refresh_tokens issue_tokens or_new
    insert_refresh_token commit ◌>>=◌
refresh-IsRotation_example = refresh-IsRotation service world "uuu" rotated tables-IsConsistent refl

refresh-returns_example :
    (tokens : AccessToken × RefreshToken) × ((refresh service "uuu" world).0 ≡ ok tokens)
refresh-returns_example =
    refresh-returns service world "uuu" (token_to_domain active_token) (user_to_domain alice)
      tables-IsConsistent refl active_record-IsPresented refl (omega arith) refl refl refl refl

abbrev locked_world : World
locked_world = record {
  committed = family_revoked_in tables 5 1;
  db = family_revoked_in tables 5 1;
  asked = 0;
  log = [];
}

abbrev locked_record : RefreshTokenRecord
locked_record = token_to_domain (revoke_at 1 active_token)

locked_record-IsPresented : IsPresented service (family_revoked_in tables 5 1) 0 "uuu" locked_record
locked_record-IsPresented = record {
  claims = ("typ", text "refresh") ∷ ("jti", text "uuu") ∷ [];
  verified = refl;
  typ = refl;
  jti = "uuu";
  named = refl;
  nonempty = refl;
  id = 3;
  parsed = refl;
  found = refl;
  hashed = refl;
}

locked_tables : family_revoked_in tables 5 1 ≡ (refresh service "uu" world).1.committed
locked_tables =
    let (raised_here, locked, known) =
      refresh-reused service world "uu" used_record tables-IsConsistent refl used_record-IsPresented
        refl refl in
    sym known

reuse-locks_family_example : (refresh service "uuu" locked_world).0 ≢ ok rotated
reuse-locks_family_example =
    reuse-locks_family service world locked_world "uu" "uuu" used_record locked_record rotated
      tables-IsConsistent refl refl used_record-IsPresented refl refl locked_tables
      locked_record-IsPresented refl

abbrev alice_creds : Credentials
alice_creds = record { username = "alice"; password = "password" }

login-returns_example :
    ((login service alice_creds world).0
      ≡ ok (
        record { token = "access"; expires_at = 900_000_000 },
        record { token = unary 22; expires_at = 2_592_000_000_000 },
      ))
    × ((login service alice_creds world).1.committed
        ≡ add_token tables (login_row service 0 (user_to_domain alice)))
login-returns_example =
    login-returns service world alice_creds (user_to_domain alice) tables-IsConsistent refl refl
      refl refl (refl, refl, refl)

login-refuses_example :
    ((login service (record { username = "alice"; password = "passw0rd" }) world).0
      ≡ raised (app (invalid_credentials_error none)))
    × ((login service (record { username = "alice"; password = "passw0rd" }) world).1.committed
        ≡ tables)
login-refuses_example =
    login-refuses service world (record { username = "alice"; password = "passw0rd" })
      tables-IsConsistent
      (λ user found enabled.
        subst
          (λ (u : UserAuthRecord).
            service.password_hasher.verify "passw0rd" u.password_hash ≡ false)
          (some_eq found) refl)

abbrev alice_user : AuthenticatedUser
alice_user = record { user_id = "u"; email = "alice"; tenant_id = ""; scopes = [] }

get_my_profile-lost_example :
    ((get_my_profile uuids
        (record { clock = record { now = λ n. n } })
        alice_user
        world).1.committed
      ≡ tables)
    × ((get_my_profile uuids (record { clock = record { now = λ n. n } }) alice_user world).1.db
        ≡ tables)
get_my_profile-lost_example =
    get_my_profile-lost uuids (record { clock = record { now = λ n. n } }) alice_user world

get_current_user-IsAccepted_example : IsAccepted uuids wiring (some "access") 0 alice_user
unfolding get_current_user verify_user or_unwired ask pure verified_claims user_of raise_if
    parse_uuid or_raise lift tenant_of authenticated_user require_authenticated require_active_user
    ◌>>=◌
get_current_user-IsAccepted_example =
    get_current_user-IsAccepted uuids wiring (some "access") world alice_user refl
