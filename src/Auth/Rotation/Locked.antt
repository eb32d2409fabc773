-- ===== src/Auth/Rotation/Locked.antt =====
-- After a token was used twice, app/auth/service.py rotates no token of its family.
use mathlib.Core.Bool.{false≢true}
use mathlib.Core.Path.{subst}
use ai_backend_foundation.Action.{ok}
use ai_backend_foundation.Action.Rules.{ok-injective}
use ai_backend_foundation.Auth.Domain.{AccessToken, RefreshToken, RefreshTokenRecord}
use ai_backend_foundation.Auth.Invariant.{IsConsistent}
use ai_backend_foundation.Auth.Invariant.Service.{refresh-IsValid}
use ai_backend_foundation.Auth.Persistence.{option_map, token_to_domain}
use ai_backend_foundation.Auth.Persistence.Writes.{rows_with}
use ai_backend_foundation.Auth.Rotation.{IsPresented}
use ai_backend_foundation.Auth.Rotation.Returns.Rows.{All-first_select}
use ai_backend_foundation.Auth.Rotation.Returns.Service.{presented-row}
use ai_backend_foundation.Auth.Rotation.Reuse.{FamilyRevoked, refresh-reused}
use ai_backend_foundation.Auth.Rotation.Success.{refresh-IsRotation}
use ai_backend_foundation.Auth.Service.{AuthService, refresh}
use ai_backend_foundation.Database.{Database, RefreshTokenRow, World}
use ai_backend_foundation.Database.Steps.{Replaced}
use ai_backend_foundation.Prelude.{
  String, ap, first, is_some, some, some_eq, sym, true, ℕ, ◌∙◌, ◌≡◌, ◌≢◌,
}
use ai_backend_foundation.Shared.Values.{get_claim, text}

-- A text stands for one record at most.
presented_unique :
    (self : AuthService) (d : Database) (n : ℕ) (token : String) (r r' : RefreshTokenRecord)
    → IsPresented self d n token r
    → IsPresented self d n token r'
    → r ≡ r'
presented_unique self d n token r r' p q =
    let same_claims : p.claims ≡ q.claims = ok-injective (sym p.verified ∙ q.verified) in
    let same_jti : some (text p.jti) ≡ some (text q.jti) =
      sym p.named ∙ ap (get_claim "jti") same_claims ∙ q.named in
    let same_id : p.id ≡ q.id = cc (same_jti, p.parsed, q.parsed) in
    some_eq
      (sym p.found ∙ ap (λ i. option_map token_to_domain (first (rows_with i d))) same_id ∙ q.found)

-- A record that a token stands for is revoked if its family is.
presented-revoked :
    (self : AuthService) (d : Database) (n : ℕ) (token : String) (r : RefreshTokenRecord)
    → FamilyRevoked r.family_id d
    → IsPresented self d n token r
    → is_some r.revoked_at ≡ true
presented-revoked self d n token r revoked p =
    let (row, found, same) = presented-row self d n token r p in
    ap is_some (sym (ap (λ (x : RefreshTokenRecord). x.revoked_at) same))
    ∙ All-first_select
        (λ (x : RefreshTokenRow). x.family_id ≡ r.family_id → is_some x.revoked_at ≡ true) _
        d.refresh_tokens revoked found (ap (λ (x : RefreshTokenRecord). x.family_id) same)

-- No token of a family that is revoked is rotated.
pub revoked_family-refused :
    (self : AuthService) (w : World) (token : String) (r : RefreshTokenRecord)
    → IsConsistent w.db
    → FamilyRevoked r.family_id w.db
    → IsPresented self w.db w.asked token r
    → (tokens : AccessToken × RefreshToken) → (refresh self token w).0 ≢ ok tokens
revoked_family-refused self w token r consistent revoked p tokens h =
    let (r', p', rotation) = refresh-IsRotation self w token tokens consistent h in
    let same = presented_unique self w.db w.asked token r' r p' p in
    false≢true (
      sym rotation.unrevoked
      ∙ ap (λ (x : RefreshTokenRecord). is_some x.revoked_at) same
      ∙ presented-revoked self w.db w.asked token r revoked p)

-- From consistent committed tables in which every replacement exists: once a genuine token was
-- presented after it had been replaced, no session that starts from the tables committed then
-- rotates a token of its family: neither the stolen tokens nor the owner's can be refreshed.
pub reuse-locks_family :
    (self : AuthService) (w next : World) (token other : String) (r s : RefreshTokenRecord)
    (tokens : AccessToken × RefreshToken)
    → IsConsistent w.committed
    → w.db ≡ w.committed
    → Replaced w.db
    → IsPresented self w.db w.asked token r
    → is_some r.revoked_at ≡ true
    → is_some r.replaced_by ≡ true
    → next.db ≡ (refresh self token w).1.committed
    → IsPresented self next.db next.asked other s
    → s.family_id ≡ r.family_id
    → (refresh self other next).0 ≢ ok tokens
reuse-locks_family self w next token other r s tokens consistent fresh replaced p revoked used after
      q family =
    let here = subst IsConsistent (sym fresh) consistent in
    let (raised_here, locked, known) = refresh-reused self w token r here replaced p revoked used in
    let later =
      ((refresh-IsValid self token).at w
        (record { committed = consistent; db = here })).committed in
    revoked_family-refused self next other s (subst IsConsistent (sym after) later)
      (subst (λ f. FamilyRevoked f next.db) (sym family)
        (subst (FamilyRevoked r.family_id) (sym after) locked))
      q tokens
