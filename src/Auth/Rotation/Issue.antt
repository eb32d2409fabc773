-- ===== src/Auth/Rotation/Issue.antt =====
-- `_issue_tokens` run on known tables: it inserts one row, or the database refuses that.
use ai_backend_foundation.Action.{Action}
use ai_backend_foundation.Action.Rules.{Ensures}
use ai_backend_foundation.Auth.Domain.{AccessToken, RefreshToken, UserAuthRecord}
use ai_backend_foundation.Auth.Persistence.Writes.{AcceptsToken, insert_token_step, with_tokens}
use ai_backend_foundation.Auth.Rotation.{new_row, token_pair}
use ai_backend_foundation.Auth.Service.{
  AuthService, access_claims, issue_tokens, or_new, refresh_claims,
}
use ai_backend_foundation.Database.{Database, RefreshTokenRow, World}
use ai_backend_foundation.Database.Steps.{At, ask_step, pure_step, returns}
use ai_backend_foundation.Prelude.{none, refl, some, suc, ℕ, ◌∷◌, ◌≡◌}
use ai_backend_foundation.Shared.Errors.{Exception}
use ai_backend_foundation.Shared.Types.{DateTime, Uuid}

-- The tokens and the row that `_issue_tokens` makes at the time `now`, its signatures and the salt
-- being the answers to the questions `n`, `n + 1` and `n + 2`.
module _ (self : AuthService) (user : UserAuthRecord) (id : Uuid) (now : DateTime) (n : ℕ) where
  abbrev pub issued_pair : AccessToken × RefreshToken
  issued_pair =
      token_pair self (self.token_signer.sign n (access_claims self user now))
        (self.token_signer.sign (suc n) (refresh_claims self user id now)) now

  abbrev pub issued_row : Uuid → RefreshTokenRow
  issued_row family_id =
      new_row self user.id family_id id
        (self.password_hasher.hash (suc (suc n)) issued_pair.1.token) now

abbrev pub add_token : Database → RefreshTokenRow → Database
add_token d row = with_tokens d (row ∷ d.refresh_tokens)

-- Where the row is refused, the exception is one that `E` admits.
abbrev pub MayRefuse : Database → Database → (Exception → World → Type 0) → RefreshTokenRow → Type 0
MayRefuse c d E row = ¬ AcceptsToken row d → (e : Exception) (w : World) → w.committed ≡ c → E e w

-- What is known beside the tables may be used.
pub given :
    {A F : Type 0} {P : World → Type 0} {m : Action World A} {Q : A → World → Type 0}
    {E : Exception → World → Type 0}
    → (F → Ensures P m Q E)
    → Ensures (λ w. F × P w) m Q E
given k = record { at = λ w h. (k h.0).at w h.1 }

module _ (self : AuthService) {c d : Database} (n : ℕ) (E : Exception → World → Type 0)
    (user : UserAuthRecord) where
  -- In the family and under the id that `refresh` gives.
  pub issue_in_family :
      (family_id id : Uuid)
      → (let now = self.clock.now n in
          let row = issued_row self user id now (suc n) family_id in
          MayRefuse c d E row
          → Ensures
              (At c d n)
              (issue_tokens self user (some family_id) (some id))
              (λ t w.
                (AcceptsToken row d × (t ≡ issued_pair self user id now (suc n)))
                × At c (add_token d row) (suc (suc (suc (suc n)))) w)
              E)
  unfolding issue_tokens or_new
  issue_in_family family_id id stop = ask_step _ E _ _ (
      pure_step _ E _ _ (
        pure_step _ E _ _ (
          ask_step _ E _ _ (
            ask_step _ E _ _ (
              ask_step _ E _ _ (
                insert_token_step _ E _ _ stop
                  (λ ready. returns _ E _ (λ w h. ((ready, refl), h)))))))))

  -- In a family of its own, as at a login.
  pub issue_new :
      let now = self.clock.now n in
      let family_id = self.uuid.uuid4 (suc n) in
      let id = self.uuid.uuid4 (suc (suc n)) in
      let k = suc (suc (suc n)) in
      let row = issued_row self user id now k family_id in
      MayRefuse c d E row
      → Ensures
          (At c d n)
          (issue_tokens self user none none)
          (λ t w.
            (AcceptsToken row d × (t ≡ issued_pair self user id now k))
            × At c (add_token d row) (suc (suc (suc k))) w)
          E
  unfolding issue_tokens or_new
  issue_new stop = ask_step _ E _ _ (
      ask_step _ E _ _ (
        ask_step _ E _ _ (
          ask_step _ E _ _ (
            ask_step _ E _ _ (
              ask_step _ E _ _ (
                insert_token_step _ E _ _ stop
                  (λ ready. returns _ E _ (λ w h. ((ready, refl), h)))))))))
