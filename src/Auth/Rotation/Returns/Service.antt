-- ===== src/Auth/Rotation/Returns/Service.antt =====
-- `rotate` and `refresh` of app/auth/service.py run to their end on a good token.
use mathlib.Core.Path.{subst}
use mathlib.Core.Bool.{false≢true}
use ai_backend_foundation.Action.{ok, pure, ◌>>=◌, ◌>>◌}
use ai_backend_foundation.Action.Rules.{Ensures, Ensures-bind, always_returns, known_step}
use ai_backend_foundation.Auth.Domain.{
  AccessToken, RefreshToken, RefreshTokenRecord, UserAuthRecord,
}
use ai_backend_foundation.Auth.Invariant.{IsConsistent, RevokedIfReplaced}
use ai_backend_foundation.Auth.Invariant.Rows.{one_token_by_id, one_user_by_id}
use ai_backend_foundation.Auth.Persistence.{
  is_active_in, option_map, token_to_domain, user_to_domain,
}
use ai_backend_foundation.Auth.Persistence.Steps.{get_user_by_id-Gives}
use ai_backend_foundation.Auth.Persistence.Writes.{
  AcceptsToken, mark_replaced-Gives, replaced_in, rows_with,
}
use ai_backend_foundation.Auth.Rotation.{IsPresented}
use ai_backend_foundation.Auth.Rotation.Issue.{given, issue_in_family, issued_row}
use ai_backend_foundation.Auth.Rotation.Presented.{presented_record_passes}
use ai_backend_foundation.Auth.Rotation.Returns.Rows.{
  All-first_select, IsFresh, any-first-select, mark-Replaced, mark-clashes, mark_inactive,
}
use ai_backend_foundation.Auth.Rotation.Success.{first-select, or_invalid_step, selected_owner}
use ai_backend_foundation.Auth.Service.{AuthService, check_reuse, issue_tokens, refresh, rotate}
use ai_backend_foundation.Database.{Database, RefreshTokenRow, UserRow, World, commit, too_long}
use ai_backend_foundation.Database.Steps.{
  At, Replaced, ask_step, commit_step, raise_if_step, returns, run_step,
}
use ai_backend_foundation.Prelude.{
  ==_iff, List, Option-cases, String, any, ap, arith, false, first, inl, inr, is_some, none, refl,
  select, some, some_eq, suc, sym, true, ℕ, ◌==◌, ◌∙◌, ◌≡◌, ◌≤◌,
}
use ai_backend_foundation.Shared.Types.{Uuid}

found_user-HasOwner :
    (id : Uuid) (users : List UserRow) (u : UserAuthRecord)
    → option_map user_to_domain (first (select (λ r. r.id == id) users)) ≡ some u
    → any (λ (x : UserRow). x.id == u.id) users ≡ true
found_user-HasOwner id users u h =
    elim (Option-cases (first (select (λ (x : UserRow). x.id == id) users))) [
      | inl nothing ↦ cc
      | inr (row, e) ↦
          rw (selected_owner id users u h) (any-first-select (λ (x : UserRow). x.id == id) users e)
    ]

module _ (self : AuthService) (c d : Database) (n : ℕ) (consistent : IsConsistent d)
    (replaced : Replaced d) (r : RefreshTokenRecord) (row : RefreshTokenRow)
    (found : first (rows_with r.id d) ≡ some row) (family : row.family_id ≡ r.family_id)
    (free : row.replaced_by ≡ none) (unrevoked : is_some r.revoked_at ≡ false)
    (user : UserAuthRecord)
    (owner : option_map user_to_domain (first (select (λ u. u.id == r.user_id) d.users))
      ≡ some user)
    (enabled : user.disabled ≡ false) where
  abbrev row_at : ℕ → RefreshTokenRow
  row_at m = issued_row self user (self.uuid.uuid4 (suc n)) (self.clock.now m) (suc m) r.family_id

  abbrev marked : Database
  marked = replaced_in d r.id (self.uuid.uuid4 (suc n)) (self.clock.now (suc (suc n)))

  marked_accepts :
      (m : ℕ)
      → too_long (row_at m).hash ≡ false
      → IsFresh (row_at m).id (row_at m).hash d.refresh_tokens
      → AcceptsToken (row_at m) marked
  marked_accepts m short fresh = (
    short,
    mark-clashes r.id _ _ (row_at m) d.refresh_tokens fresh (
        subst (λ f. any (is_active_in f) marked.refresh_tokens ≡ false) family
          (mark_inactive r.id _ _ row d.refresh_tokens consistent.tokens_apart found free)),
    found_user-HasOwner r.user_id d.users user owner,
  )

  issue_and_commit :
      (m : ℕ)
      → AcceptsToken (row_at m) marked
      → Ensures
          (At c marked m)
          (issue_tokens self user (some r.family_id) (some (self.uuid.uuid4 (suc n))) >>= λ tokens.
            (commit >> pure tokens))
          (λ tokens w. Unit)
          (λ e w. ⊥)
  issue_and_commit m accepts =
      Ensures-bind _
        (λ tokens. given λ known.
          commit_step _ _ _
            (mark-Replaced r.id _ _ (row_at m) d.refresh_tokens d.refresh_tokens refl replaced)
            (returns _ _ _ λ w h. tt))
        _ (issue_in_family self m _ user _ _ (λ no e w h. no accepts))

  rotate-returns :
      self.clock.now n ≤ r.expires_at
      → too_long (row_at (suc (suc (suc n)))).hash ≡ false
      → IsFresh (row_at (suc (suc (suc n)))).id (row_at (suc (suc (suc n)))).hash d.refresh_tokens
      → Ensures (At c d n) (rotate self r) (λ tokens w. Unit) (λ e w. ⊥)
  unfolding rotate
  rotate-returns unexpired short fresh =
      let accepts = marked_accepts (suc (suc (suc n))) short fresh in
      raise_if_step _ _ _ _ _ (λ b w h. ground (arith, unrevoked))
        λ _. ask_step _ _ _ _ (
          raise_if_step _ _ _ _ _ (λ b w h. ground (arith, unexpired))
            λ _.
              run_step _ _ _ _
                (get_user_by_id-Gives c d _ r.user_id (one_user_by_id d consistent r.user_id))
                (or_invalid_step _ _ _ _ (λ off w h. cc (off user owner, enabled))
                  λ u found_user on.
                    let same : u ≡ user = some_eq (sym found_user ∙ owner) in
                    ask_step _ _ _ _ (
                      ask_step _ _ _ _ (
                        run_step _ _ _ _
                          (mark_replaced-Gives c d _ r.id _ _ (one_token_by_id d consistent r.id))
                          (rw same (issue_and_commit (suc (suc (suc n))) accepts))))))

-- The row that a rotation of the record `r` of `user` would insert, where the last answer before
-- the rotation was the `n`-th.
abbrev pub rotation_row : AuthService → ℕ → RefreshTokenRecord → UserAuthRecord → RefreshTokenRow
rotation_row self n r user =
    issued_row self user (self.uuid.uuid4 (suc (suc n))) (self.clock.now (suc (suc (suc (suc n)))))
      (suc (suc (suc (suc (suc n))))) r.family_id

pub presented-row :
    (self : AuthService) (d : Database) (n : ℕ) (token : String) (r : RefreshTokenRecord)
    → IsPresented self d n token r
    → (row : RefreshTokenRow) × (first (rows_with r.id d) ≡ some row) × (token_to_domain row ≡ r)
presented-row self d n token r p = elim (Option-cases (first (rows_with p.id d))) [
  | inl nothing ↦ cc (sym (ap (option_map token_to_domain) nothing) ∙ p.found)
  | inr (row, e) ↦
      let same : token_to_domain row ≡ r =
        some_eq (sym (ap (option_map token_to_domain) e) ∙ p.found) in
      let named : row.id ≡ p.id =
        (==_iff row.id p.id).0
          (first-select (λ (x : RefreshTokenRow). x.id == p.id) d.refresh_tokens e) in
      let here : p.id ≡ r.id = sym named ∙ ap (λ (x : RefreshTokenRecord). x.id) same in
      (row, subst (λ i. first (rows_with i d) ≡ some row) here e, same)
]

unrevoked-unreplaced :
    (row : RefreshTokenRow)
    → RevokedIfReplaced row
    → is_some row.revoked_at ≡ false
    → row.replaced_by ≡ none
unrevoked-unreplaced row h live = elim (Option-cases row.replaced_by) [
  | inl e ↦ e
  | inr (id, e) ↦ absurd (false≢true (sym live ∙ h (ap is_some e)))
]

check_reuse-passes :
    (self : AuthService) (c d : Database) (n : ℕ) (r : RefreshTokenRecord)
    → is_some r.revoked_at ≡ false
    → Ensures (At c d n) (check_reuse self r) (λ u w. At c d n w) (λ e w. ⊥)
unfolding check_reuse pure
check_reuse-passes self c d n r live = rw live (record { at = λ w h. h })

-- On consistent tables in which every replacement exists: a genuine token that is neither revoked
-- nor expired, of a user that is there and enabled, is refreshed: tokens come back, provided that
-- the new identifier and the new hash are ones that no token has, and that the hash fits its
-- column. No other constraint can refuse the rotation.
pub refresh-returns :
    (self : AuthService) (w : World) (token : String) (r : RefreshTokenRecord)
    (user : UserAuthRecord)
    → IsConsistent w.db
    → Replaced w.db
    → IsPresented self w.db w.asked token r
    → is_some r.revoked_at ≡ false
    → self.clock.now (suc w.asked) ≤ r.expires_at
    → option_map user_to_domain (first (select (λ u. u.id == r.user_id) w.db.users)) ≡ some user
    → user.disabled ≡ false
    → too_long (rotation_row self w.asked r user).hash ≡ false
    → IsFresh
        (rotation_row self w.asked r user).id
        (rotation_row self w.asked r user).hash
        w.db.refresh_tokens
    → (tokens : AccessToken × RefreshToken) × ((refresh self token w).0 ≡ ok tokens)
unfolding refresh
refresh-returns self w token r user consistent replaced presented live unexpired owner enabled short
      fresh =
    let d = w.db in
    let n = w.asked in
    let (row, found, same) = presented-row self d n token r presented in
    let same_at = ap (λ (x : RefreshTokenRecord). x.revoked_at) same in
    let row_live : is_some row.revoked_at ≡ false = ap is_some same_at ∙ live in
    let free =
      unrevoked-unreplaced row
        (All-first_select RevokedIfReplaced _ d.refresh_tokens consistent.revoked found) row_live in
    let through =
      known_step _ _ _ _ r
        (presented_record_passes self w.committed d n consistent token r presented)
        (Ensures-bind _
          (λ u.
            rotate-returns self w.committed d (suc n) consistent replaced r row found
              (ap (λ (x : RefreshTokenRecord). x.family_id) same) free live user owner enabled
              unexpired short fresh)
          _ (check_reuse-passes self w.committed d (suc n) r live)) in
    let (tokens, returned, _) = always_returns _ (λ e w. ⊥) _ _ (through.at w (refl, refl, refl)) in
    (tokens, returned)
