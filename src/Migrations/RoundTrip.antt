-- ===== src/Migrations/RoundTrip.antt =====
-- Going up all migrations of alembic/versions and down again.
use ai_backend_foundation.Action.{Action, ok, ◌>>=◌, ◌>>◌}
use ai_backend_foundation.Migrations.{
  Index, Op, Runs, Schema, Table, has_extension, has_relation, is_index, is_on, is_table, refers_to,
}
use ai_backend_foundation.Migrations.Versions.{
  ix_users_email, ix_users_tenant_id, ix_refresh_tokens_family_id, ix_refresh_tokens_hash,
  ix_refresh_tokens_user_id, ix_refresh_tokens_family_active, ix_user_profiles_email, users,
  refresh_tokens, user_profiles, downgrade_auth, downgrade_base, downgrade_users, upgrade_auth,
  upgrade_base, upgrade_users,
}
use ai_backend_foundation.Prelude.{All, List, String, [], any, ap, false, refl, ◌∷◌, ◌≡◌}

Runs-then :
    {m n : Action Schema (Unit {0})} {s s' s'' : Schema}
    → Runs m s s'
    → Runs n s' s''
    → Runs (m >> n) s s''
unfolding ◌>>=◌
Runs-then h g = record { runs = rw (h.runs, g.runs) refl }

-- No table or index has the name.
pub record IsFree (tables : List Table) (indexes : List Index) (name : String) : Type 0 where
  pub no_table : any (is_table name) tables ≡ false
  pub no_index : any (is_index name) indexes ≡ false

-- Nor is there an index on such a table or a reference to it.
pub record IsFreeTable (tables : List Table) (indexes : List Index) (name : String) : Type 0 where
  pub free : IsFree tables indexes name
  pub no_index_on : any (is_on name) indexes ≡ false
  pub no_reference : any (refers_to name) tables ≡ false

pub record IsFresh (tables : List Table) (indexes : List Index) : Type 0 where
  pub users : IsFreeTable tables indexes "users"
  pub refresh_tokens : IsFreeTable tables indexes "refresh_tokens"
  pub user_profiles : IsFreeTable tables indexes "user_profiles"
  pub free_indexes : All (IsFree tables indexes) (
      "ix_users_email" ∷ "ix_users_tenant_id" ∷ "ix_refresh_tokens_family_id"
      ∷ "ix_refresh_tokens_hash" ∷ "ix_refresh_tokens_user_id" ∷ "ix_refresh_tokens_family_active"
      ∷ "ix_user_profiles_email" ∷ [])

has_relation-IsFree :
    (s : Schema) (name : String) → IsFree s.tables s.indexes name → has_relation name s ≡ false
has_relation-IsFree s name h = rw (h.no_table, h.no_index) refl

abbrev pub with_extension : Schema → Schema
with_extension s = record s { extensions = "vector" ∷ s.extensions }

abbrev pub with_auth : Schema → Schema
with_auth s = record s {
  tables = refresh_tokens ∷ users ∷ s.tables;
  indexes =
      ix_refresh_tokens_family_active ∷ ix_refresh_tokens_user_id ∷ ix_refresh_tokens_hash
      ∷ ix_refresh_tokens_family_id ∷ ix_users_tenant_id ∷ ix_users_email ∷ s.indexes;
}

abbrev pub with_users : Schema → Schema
with_users s = record s {
  tables = user_profiles ∷ s.tables;
  indexes = ix_user_profiles_email ∷ s.indexes;
}

module _ (op : Op) where
  abbrev pub upgrade_all : Action Schema (Unit {0})
  upgrade_all = do upgrade_base op; upgrade_auth op; upgrade_users op

  abbrev pub downgrade_all : Action Schema (Unit {0})
  downgrade_all = do downgrade_users op; downgrade_auth op; downgrade_base op

  module _ (s : Schema) (fresh : IsFresh s.tables s.indexes) where
    Runs-upgrade_auth : Runs (upgrade_auth op) s (with_auth s)
    unfolding upgrade_auth
    Runs-upgrade_auth =
        Runs-then (op.creates_table users s (has_relation-IsFree s _ fresh.users.free) refl) (
          Runs-then
            (op.creates_index ix_users_email _ (has_relation-IsFree s _ fresh.free_indexes.0) refl)
            (Runs-then
              (op.creates_index ix_users_tenant_id _
                (has_relation-IsFree s _ fresh.free_indexes.1.0) refl)
              (Runs-then
                (op.creates_table refresh_tokens _
                  (has_relation-IsFree s _ fresh.refresh_tokens.free) refl)
                (Runs-then
                  (op.creates_index ix_refresh_tokens_family_id _
                    (has_relation-IsFree s _ fresh.free_indexes.1.1.0) refl)
                  (Runs-then
                    (op.creates_index ix_refresh_tokens_hash _
                      (has_relation-IsFree s _ fresh.free_indexes.1.1.1.0) refl)
                    (Runs-then
                      (op.creates_index ix_refresh_tokens_user_id _
                        (has_relation-IsFree s _ fresh.free_indexes.1.1.1.1.0) refl)
                      (op.creates_index ix_refresh_tokens_family_active _
                        (has_relation-IsFree s _ fresh.free_indexes.1.1.1.1.1.0) refl)))))))

    Runs-downgrade_auth : Runs (downgrade_auth op) (with_auth s) s
    unfolding downgrade_auth
    Runs-downgrade_auth =
        Runs-then
          (op.drops_index ix_refresh_tokens_family_active _ fresh.free_indexes.1.1.1.1.1.0.no_index)
          (Runs-then
            (op.drops_index ix_refresh_tokens_user_id _ fresh.free_indexes.1.1.1.1.0.no_index)
            (Runs-then (op.drops_index ix_refresh_tokens_hash _ fresh.free_indexes.1.1.1.0.no_index)
              (Runs-then
                (op.drops_index ix_refresh_tokens_family_id _ fresh.free_indexes.1.1.0.no_index)
                (Runs-then
                  (op.drops_table refresh_tokens _ fresh.refresh_tokens.free.no_table
                    fresh.refresh_tokens.no_reference fresh.refresh_tokens.no_index_on)
                  (Runs-then (op.drops_index ix_users_tenant_id _ fresh.free_indexes.1.0.no_index) (
                    Runs-then (op.drops_index ix_users_email _ fresh.free_indexes.0.no_index) (
                      op.drops_table users _ fresh.users.free.no_table fresh.users.no_reference
                        fresh.users.no_index_on)))))))

    Runs-upgrade_users : Runs (upgrade_users op) (with_auth s) (with_users (with_auth s))
    unfolding upgrade_users
    Runs-upgrade_users =
        Runs-then
          (op.creates_table user_profiles _ (has_relation-IsFree s _ fresh.user_profiles.free) refl)
          (op.creates_index ix_user_profiles_email _
            (has_relation-IsFree s _ fresh.free_indexes.1.1.1.1.1.1.0) refl)

    Runs-downgrade_users : Runs (downgrade_users op) (with_users (with_auth s)) (with_auth s)
    unfolding downgrade_users
    Runs-downgrade_users =
        Runs-then
          (op.drops_index ix_user_profiles_email _ fresh.free_indexes.1.1.1.1.1.1.0.no_index)
          (op.drops_table user_profiles _ fresh.user_profiles.free.no_table
            fresh.user_profiles.no_reference fresh.user_profiles.no_index_on)

  module _ (s : Schema) (missing : has_extension "vector" s ≡ false) where
    Runs-upgrade_base : Runs (upgrade_base op) s (with_extension s)
    unfolding upgrade_base
    Runs-upgrade_base = op.creates_extension "vector" s missing

    Runs-downgrade_base : Runs (downgrade_base op) (with_extension s) s
    unfolding downgrade_base
    Runs-downgrade_base = op.drops_extension "vector" s missing

  -- Let the operations of Alembic do what `Op` says, in a database that has neither the extension
  -- `vector` nor a table or an index under a name of the migrations, nor an index on such a table or a
  -- foreign key to it. Then all upgrades in their order succeed, all downgrades in the opposite order
  -- succeed after them, and what is left is the schema as it was.
  pub upgrade_all-downgrade_all :
      (s : Schema)
      → has_extension "vector" s ≡ false
      → IsFresh s.tables s.indexes
      → ((upgrade_all s).0 ≡ ok tt) × ((upgrade_all >> downgrade_all) s ≡ (ok tt, s))
  upgrade_all-downgrade_all s missing fresh =
      let begun = with_extension s in
      let up : Runs upgrade_all s (with_users (with_auth begun)) =
        Runs-then (Runs-upgrade_base s missing)
          (Runs-then (Runs-upgrade_auth begun fresh) (Runs-upgrade_users begun fresh)) in
      let down : Runs downgrade_all (with_users (with_auth begun)) s =
        Runs-then (Runs-downgrade_users begun fresh)
          (Runs-then (Runs-downgrade_auth begun fresh) (Runs-downgrade_base s missing)) in
      (ap (λ r. r.0) up.runs, (Runs-then up down).runs)
