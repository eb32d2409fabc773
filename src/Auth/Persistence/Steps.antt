-- ===== src/Auth/Persistence/Steps.antt =====
-- The statements of app/auth/persistence.py run on known tables.
use mathlib.Core.Path.{subst}
use ai_backend_foundation.Action.{Action, gets, ok, pure, ◌>>=◌}
use ai_backend_foundation.Auth.Persistence.{
  get_refresh_token_by_id, get_user_by_email, get_user_by_id, option_map, scalar_one_or_none,
  token_to_domain, user_to_domain,
}
use ai_backend_foundation.Database.{Database, UserRow, World}
use ai_backend_foundation.Database.Steps.{Gives}
use ai_backend_foundation.Prelude.{
  AtMostOne, List, String, [], first, refl, select, str_eq, sym, ℕ, ◌==◌, ◌∷◌, ◌≡◌,
}
use ai_backend_foundation.Shared.Types.{Uuid}

pub scalar_one_or_none_lem :
    {A : Type 0} (rows : List A) (w : World)
    → AtMostOne rows
    → scalar_one_or_none rows w ≡ (ok (first rows), w)
unfolding scalar_one_or_none pure
scalar_one_or_none_lem [] w h = refl
scalar_one_or_none_lem (x ∷ []) w h = refl
scalar_one_or_none_lem (x ∷ y ∷ xs) w h = absurd h

-- A query leaves the world as it was.
get_user_by_email_lem :
    (email : String) (w : World)
    → AtMostOne (select (λ r. str_eq r.email email) w.db.users)
    → get_user_by_email email w
      ≡ (ok (option_map user_to_domain (first (select (λ r. str_eq r.email email) w.db.users))), w)
unfolding get_user_by_email gets pure ◌>>=◌
get_user_by_email_lem email w one = rw (scalar_one_or_none_lem _ w one)

get_user_by_id_lem :
    (id : Uuid) (w : World)
    → AtMostOne (select (λ r. r.id == id) w.db.users)
    → get_user_by_id id w
      ≡ (ok (option_map user_to_domain (first (select (λ r. r.id == id) w.db.users))), w)
unfolding get_user_by_id gets pure ◌>>=◌
get_user_by_id_lem id w one = rw (scalar_one_or_none_lem _ w one)

get_refresh_token_by_id_lem :
    (id : Uuid) (w : World)
    → AtMostOne (select (λ r. r.id == id) w.db.refresh_tokens)
    → get_refresh_token_by_id id w
      ≡ (ok (option_map token_to_domain (first (select (λ r. r.id == id) w.db.refresh_tokens))), w)
unfolding get_refresh_token_by_id gets pure ◌>>=◌
get_refresh_token_by_id_lem id w one = rw (scalar_one_or_none_lem _ w one)

module _ (c d : Database) (n : ℕ) where
  -- On a session that sees `d`, what a query finds there.
  at_tables :
      {A : Type 0} (m : Action World A) (One : Database → Type 0) (a : Database → A)
      → ((w : World) → One w.db → m w ≡ (ok (a w.db), w))
      → One d
      → Gives m c d n (a d) c d n
  at_tables m One a lem one w h =
      (w, subst (λ x. m w ≡ (ok (a x), w)) h.1 (lem w (subst One (sym h.1) one)), h)

  pub get_user_by_email-Gives :
      (email : String)
      → AtMostOne (select (λ r. str_eq r.email email) d.users)
      → Gives
          (get_user_by_email email)
          c
          d
          n
          (option_map user_to_domain (first (select (λ r. str_eq r.email email) d.users)))
          c
          d
          n
  get_user_by_email-Gives email =
      at_tables (get_user_by_email email) _ _ (get_user_by_email_lem email)

  pub get_user_by_id-Gives :
      (id : Uuid)
      → AtMostOne (select (λ r. r.id == id) d.users)
      → Gives
          (get_user_by_id id)
          c
          d
          n
          (option_map user_to_domain (first (select (λ r. r.id == id) d.users)))
          c
          d
          n
  get_user_by_id-Gives id =
      at_tables (get_user_by_id id) (λ x. AtMostOne (select (λ (r : UserRow). r.id == id) x.users))
        _ (get_user_by_id_lem id)

  pub get_refresh_token_by_id-Gives :
      (id : Uuid)
      → AtMostOne (select (λ r. r.id == id) d.refresh_tokens)
      → Gives
          (get_refresh_token_by_id id)
          c
          d
          n
          (option_map token_to_domain (first (select (λ r. r.id == id) d.refresh_tokens)))
          c
          d
          n
  get_refresh_token_by_id-Gives id =
      at_tables (get_refresh_token_by_id id) _ _ (get_refresh_token_by_id_lem id)
