-- ===== src/Tests/Sessions.antt =====
-- Tests of sequences of requests to app/auth/api.py.
use ai_backend_foundation.Action.{ok, pure, ◌>>=◌}
use ai_backend_foundation.Auth.Api.{
  Request, handle, login_request, logout_request, refresh_request, run,
}
use ai_backend_foundation.Auth.Domain.{AccessToken, RefreshToken, RefreshTokenRecord}
use ai_backend_foundation.Auth.Invariant.{IsConsistent}
use ai_backend_foundation.Auth.Persistence.{revoke_at, token_to_domain}
use ai_backend_foundation.Auth.Persistence.Writes.{family_revoked_in}
use ai_backend_foundation.Auth.Rotation.{IsPresented}
use ai_backend_foundation.Auth.Service.{logout, logout_verified, refresh}
use ai_backend_foundation.Auth.Sessions.{IsLocked, TokenStep}
use ai_backend_foundation.Auth.Sessions.Refinement.{
  TokenSteps, run-TokenSteps, run-locked_family, session-TokenStep,
}
use ai_backend_foundation.Database.{Database, World, ask, log_event, with_session}
use ai_backend_foundation.Prelude.{List, [], refl, sym, ◌∷◌, ◌≡◌, ◌≢◌, ◌⊎◌}
use ai_backend_foundation.Shared.Values.{text}
use ai_backend_foundation.Tests.Setup.{active_token, service, tables, tables-IsConsistent, world}

abbrev two_requests : List Request
two_requests = login_request "alice" "password" ∷ logout_request "uuu" ∷ []

session-TokenStep_example :
    (let rows =
        (with_session (handle service (refresh_request "uuu")) world).1.committed.refresh_tokens in
      (rows ≡ tables.refresh_tokens) ⊎ TokenStep tables.refresh_tokens rows)
session-TokenStep_example =
    session-TokenStep service (refresh_request "uuu") world tables-IsConsistent

abbrev revoked_rows : Database
revoked_rows = family_revoked_in tables 5 1

abbrev revoked_world : World
revoked_world = record { committed = revoked_rows; db = revoked_rows; asked = 0; log = [] }

revoked_rows-IsConsistent : IsConsistent revoked_rows
revoked_rows-IsConsistent = record {
  users_apart = (tt, tt);
  tokens_apart = (((λ h. cc, λ h. cc, λ e h k. cc), tt), (tt, tt));
  revoked = (λ h. cc, (λ h. refl, tt));
  owned = (refl, (refl, tt));
}

revoked_rows-IsLocked : IsLocked 5 revoked_rows.refresh_tokens
revoked_rows-IsLocked = record { revoked = (λ e. refl, (λ e. refl, tt)); last = refl }

abbrev revoked_token_record : RefreshTokenRecord
revoked_token_record = token_to_domain (revoke_at 1 active_token)

still_revoked : (run service (logout_request "bad" ∷ []) revoked_world).committed ≡ revoked_rows
unfolding run handle with_session logout logout_verified ask log_event pure ◌>>=◌
still_revoked = refl

revoked_token_record-IsPresented : IsPresented service revoked_rows 0 "uuu" revoked_token_record
revoked_token_record-IsPresented = record {
  claims = ("typ", text "refresh") ∷ ("jti", text "uuu") ∷ [];
  verified = refl;
  typ = refl;
  jti = "uuu";
  named = refl;
  nonempty = refl;
  id = 3;
  parsed = refl;
  found = refl;
  hashed = refl;
}

abbrev some_tokens : AccessToken × RefreshToken
some_tokens =
    (record { token = "access"; expires_at = 1 }, record { token = "refresh"; expires_at = 1 })

run-locked_family_example : (refresh service "uuu" revoked_world).0 ≢ ok some_tokens
run-locked_family_example =
    run-locked_family service (logout_request "bad" ∷ []) revoked_world revoked_world "uuu"
      revoked_token_record some_tokens revoked_rows-IsConsistent revoked_rows-IsLocked
      (sym still_revoked) revoked_token_record-IsPresented

two_steps :
    TokenSteps tables.refresh_tokens (run service two_requests world).committed.refresh_tokens
two_steps = run-TokenSteps service two_requests world tables-IsConsistent
