-- ===== src/Auth/Persistence/Writes.antt =====
-- What the writing statements of app/auth/persistence.py make of known tables.
use mathlib.Core.Path.{subst}
use ai_backend_foundation.Action.{Action, gets, ok, pure, raised, ◌>>=◌}
use ai_backend_foundation.Action.Rules.{Ensures}
use ai_backend_foundation.Auth.Domain.{RefreshTokenRecord}
use ai_backend_foundation.Auth.Invariant.{HasOwner}
use ai_backend_foundation.Auth.Persistence.{
  clashes, insert_refresh_token, insert_user, is_live_in, mark_refresh_token_replaced, option_map,
  replace_with, revoke_at, revoke_refresh_token, revoke_refresh_token_family, token_to_domain,
  update_tokens, user_to_domain,
}
use ai_backend_foundation.Auth.Persistence.Steps.{scalar_one_or_none_lem}
use ai_backend_foundation.Database.{
  Database, RefreshTokenRow, UserRow, World, refuse, set_refresh_tokens, set_users, too_long,
}
use ai_backend_foundation.Database.Steps.{At, Gives, run_step}
use ai_backend_foundation.Prelude.{
  AtMostOne, AtMostOne-map, Bool, Bool-cases, List, any, false, first, inl, inr, length, map, refl,
  select, str_eq, sym, update_where, ℕ, ◌==◌, ◌||◌, ◌∙◌, ◌∷◌, ◌≡◌, ◌⊎◌,
}
use ai_backend_foundation.Shared.Errors.{Exception, data_error, integrity_error}
use ai_backend_foundation.Shared.Types.{DateTime, Uuid}

abbrev pub with_tokens : Database → List RefreshTokenRow → Database
with_tokens d rows = record d { refresh_tokens = rows }

abbrev pub rows_with : Uuid → Database → List RefreshTokenRow
rows_with id d = select (λ r. r.id == id) d.refresh_tokens

-- The tables after the updates of app/auth/persistence.py.
abbrev pub replaced_in : Database → Uuid → Uuid → DateTime → Database
replaced_in d id new at =
    with_tokens d (update_where (λ r. r.id == id) (replace_with new at) d.refresh_tokens)

abbrev pub revoked_in : Database → Uuid → DateTime → Database
revoked_in d id at = with_tokens d (update_where (λ r. r.id == id) (revoke_at at) d.refresh_tokens)

abbrev pub family_revoked_in : Database → Uuid → DateTime → Database
family_revoked_in d family_id at =
    with_tokens d (update_where (is_live_in family_id) (revoke_at at) d.refresh_tokens)

update_tokens_lem :
    (p : RefreshTokenRow → Bool) (f : RefreshTokenRow → RefreshTokenRow) (w : World)
    → update_tokens p f w ≡ (
      ok (map f (select p w.db.refresh_tokens)),
      record w { db = with_tokens w.db (update_where p f w.db.refresh_tokens) },
    )
unfolding update_tokens set_refresh_tokens gets pure ◌>>=◌
update_tokens_lem p f w = refl

mark_replaced_lem :
    (id new : Uuid) (at : DateTime) (w : World)
    → AtMostOne (rows_with id w.db)
    → mark_refresh_token_replaced id new at w ≡ (
      ok (option_map token_to_domain (first (map (replace_with new at) (rows_with id w.db)))),
      record w { db = replaced_in w.db id new at },
    )
unfolding mark_refresh_token_replaced pure ◌>>=◌
mark_replaced_lem id new at w one = rw (
  update_tokens_lem,
  scalar_one_or_none_lem (map (replace_with new at) (rows_with id w.db)) _
      (AtMostOne-map _ (rows_with id w.db) one),
)

revoke_family_lem :
    (family_id : Uuid) (at : DateTime) (w : World)
    → revoke_refresh_token_family family_id at w ≡ (
      ok (length (map (revoke_at at) (select (is_live_in family_id) w.db.refresh_tokens))),
      record w { db = family_revoked_in w.db family_id at },
    )
unfolding revoke_refresh_token_family pure ◌>>=◌
revoke_family_lem family_id at w = rw update_tokens_lem

revoke_token_lem :
    (id : Uuid) (at : DateTime) (w : World)
    → AtMostOne (rows_with id w.db)
    → revoke_refresh_token id at w ≡ (
      ok (option_map token_to_domain (first (map (revoke_at at) (rows_with id w.db)))),
      record w { db = revoked_in w.db id at },
    )
unfolding revoke_refresh_token pure ◌>>=◌
revoke_token_lem id at w one = rw (
  update_tokens_lem,
  scalar_one_or_none_lem (map (revoke_at at) (rows_with id w.db)) _
      (AtMostOne-map _ (rows_with id w.db) one),
)

insert_token_lem :
    (row : RefreshTokenRow) (w : World)
    → too_long row.hash ≡ false
    → any (clashes row) w.db.refresh_tokens ≡ false
    → HasOwner w.db.users row
    → insert_refresh_token row w
      ≡ (ok (token_to_domain row), record w { db = with_tokens w.db (row ∷ w.db.refresh_tokens) })
unfolding insert_refresh_token set_refresh_tokens gets pure ◌>>=◌
insert_token_lem row w short apart owner = rw (short, apart, owner)

insert_user_lem :
    (row : UserRow) (w : World)
    → too_long row.email ≡ false
    → too_long row.password_hash ≡ false
    → any (λ r. r.id == row.id || str_eq r.email row.email) w.db.users ≡ false
    → insert_user row w
      ≡ (ok (user_to_domain row), record w { db = record w.db { users = row ∷ w.db.users } })
unfolding insert_user set_users gets pure ◌>>=◌
insert_user_lem row w short_email short_hash apart = rw (short_email, short_hash, apart)

-- What the constraints want of a new row.
abbrev pub AcceptsToken : RefreshTokenRow → Database → Type 0
AcceptsToken row x =
    (too_long row.hash ≡ false)
    × (any (clashes row) x.refresh_tokens ≡ false)
    × HasOwner x.users row

abbrev pub AcceptsUser : UserRow → Database → Type 0
AcceptsUser row x =
    (too_long row.email ≡ false)
    × (too_long row.password_hash ≡ false)
    × (any (λ r. r.id == row.id || str_eq r.email row.email) x.users ≡ false)

module _ (c d : Database) (n : ℕ) where
  -- On a session that sees `d`, what a statement returns and makes of the tables.
  on_tables :
      {A : Type 0} (m : Action World A) (Ready : Database → Type 0) (a : Database → A)
      (next : Database → Database)
      → ((w : World) → Ready w.db → m w ≡ (ok (a w.db), record w { db = next w.db }))
      → Ready d
      → Gives m c d n (a d) c (next d) n
  on_tables m Ready a next lem ready w h = (
    record w { db = next d },
    subst (λ x. m w ≡ (ok (a x), record w { db = next x })) h.1
        (lem w (subst Ready (sym h.1) ready)),
    (h.0, refl, h.2),
  )

  pub mark_replaced-Gives :
      (id new : Uuid) (at : DateTime)
      → AtMostOne (rows_with id d)
      → Gives
          (mark_refresh_token_replaced id new at)
          c
          d
          n
          (option_map token_to_domain (first (map (replace_with new at) (rows_with id d))))
          c
          (replaced_in d id new at)
          n
  mark_replaced-Gives id new at =
      on_tables (mark_refresh_token_replaced id new at) (λ x. AtMostOne (rows_with id x)) _
        (λ x. replaced_in x id new at) (mark_replaced_lem id new at)

  pub revoke_token-Gives :
      (id : Uuid) (at : DateTime)
      → AtMostOne (rows_with id d)
      → Gives
          (revoke_refresh_token id at)
          c
          d
          n
          (option_map token_to_domain (first (map (revoke_at at) (rows_with id d))))
          c
          (revoked_in d id at)
          n
  revoke_token-Gives id at =
      on_tables (revoke_refresh_token id at) (λ x. AtMostOne (rows_with id x)) _
        (λ x. revoked_in x id at) (revoke_token_lem id at)

  pub revoke_family-Gives :
      (family_id : Uuid) (at : DateTime)
      → Gives
          (revoke_refresh_token_family family_id at)
          c
          d
          n
          (length (map (revoke_at at) (select (is_live_in family_id) d.refresh_tokens)))
          c
          (family_revoked_in d family_id at)
          n
  revoke_family-Gives family_id at =
      on_tables (revoke_refresh_token_family family_id at) (λ _. Unit) _
        (λ x. family_revoked_in x family_id at) (λ w _. revoke_family_lem family_id at w) tt

  pub insert_token-Gives :
      (row : RefreshTokenRow)
      → AcceptsToken row d
      → Gives
          (insert_refresh_token row)
          c
          d
          n
          (token_to_domain row)
          c
          (with_tokens d (row ∷ d.refresh_tokens))
          n
  insert_token-Gives row =
      on_tables (insert_refresh_token row) (AcceptsToken row) _
        (λ x. with_tokens x (row ∷ x.refresh_tokens))
        (λ w ready. insert_token_lem row w ready.0 ready.1 ready.2)

  pub insert_user-Gives :
      (row : UserRow)
      → AcceptsUser row d
      → Gives (insert_user row) c d n (user_to_domain row) c (record d { users = row ∷ d.users }) n
  insert_user-Gives row =
      on_tables (insert_user row) (AcceptsUser row) _ (λ x. record x { users = row ∷ x.users })
        (λ w ready. insert_user_lem row w ready.0 ready.1 ready.2)

insert_token_cases :
    (row : RefreshTokenRow) (w : World)
    → AcceptsToken row w.db
      ⊎ ((e : Exception) × (w' : World) × (insert_refresh_token row w ≡ (raised e, w'))
          × (w'.committed ≡ w.committed)
          × ¬ AcceptsToken row w.db)
unfolding insert_refresh_token refuse gets ◌>>=◌
insert_token_cases row w = elim (Bool-cases (too_long row.hash)) [
  | inl long ↦ inr (data_error, rolled_back, rw long, refl, λ a. cc (long, a.0))
  | inr short ↦ elim (Bool-cases (any (clashes row) w.db.refresh_tokens)) [
    | inl clash ↦ inr (integrity_error, rolled_back, rw (short, clash), refl, λ a. cc (clash, a.1))
    | inr apart ↦ elim (Bool-cases (any (λ u. u.id == row.user_id) w.db.users)) [
      | inl owner ↦ inl (short, apart, owner)
      | inr nobody ↦
          inr (integrity_error, rolled_back, rw (short, apart, nobody), refl, λ a. cc (nobody, a.2))
    ]
  ]
]
  where
    rolled_back : World
    rolled_back = record w { db = w.committed }

-- A refused statement leaves the committed tables alone.
pub insert_token_step :
    {B : Type 0} {c d : Database} {n : ℕ} (Q : B → World → Type 0) (E : Exception → World → Type 0)
    (row : RefreshTokenRow) (f : RefreshTokenRecord → Action World B)
    → (¬ AcceptsToken row d → (e : Exception) (w : World) → w.committed ≡ c → E e w)
    → (AcceptsToken row d
        → Ensures (At c (with_tokens d (row ∷ d.refresh_tokens)) n) (f (token_to_domain row)) Q E)
    → Ensures (At c d n) (insert_refresh_token row >>= f) Q E
unfolding ◌>>=◌
insert_token_step {c} {d} {n} Q E row f stop go = record {
  at = λ w h. elim (insert_token_cases row w) [
    | inl ready ↦
        let ready' : AcceptsToken row d = subst (AcceptsToken row) h.1 ready in
        (run_step Q E (insert_refresh_token row) f (insert_token-Gives c d n row ready')
            (go ready')).at
          w h
    | inr (e, w', refused, same, unfit) ↦
        rw refused (stop (subst (λ x. ¬ AcceptsToken row x) h.1 unfit) e w' (same ∙ h.0))
  ];
}
