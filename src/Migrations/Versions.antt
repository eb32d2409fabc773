-- ===== src/Migrations/Versions.antt =====
-- alembic/versions: 0001_base.py, 0002_auth.py and 0003_users.py.
use ai_backend_foundation.Action.{Action, ◌>>◌}
use ai_backend_foundation.Migrations.{
  Index, Op, Schema, Table, boolean, cascade, date_time, set_null, string, uuid,
}
use ai_backend_foundation.Prelude.{[], false, none, some, true, ◌∷◌}

abbrev pub users : Table
users = record {
  name = "users";
  columns =
      (record { name = "id"; type = uuid; nullable = false; server_default = none })
      ∷ (record { name = "email"; type = string 255; nullable = false; server_default = none })
      ∷ (record {
        name = "password_hash";
        type = string 255;
        nullable = false;
        server_default = none;
      })
      ∷ (record {
        name = "created_at";
        type = date_time true;
        nullable = false;
        server_default = none;
      })
      ∷ (record { name = "tenant_id"; type = uuid; nullable = true; server_default = none })
      ∷ (record { name = "disabled"; type = boolean; nullable = false; server_default = none })
      ∷ [];
  foreign_keys = [];
  primary_key = "id" ∷ [];
}

abbrev pub refresh_tokens : Table
refresh_tokens = record {
  name = "refresh_tokens";
  columns =
      (record { name = "id"; type = uuid; nullable = false; server_default = none })
      ∷ (record { name = "user_id"; type = uuid; nullable = false; server_default = none })
      ∷ (record { name = "family_id"; type = uuid; nullable = false; server_default = none })
      ∷ (record { name = "hash"; type = string 255; nullable = false; server_default = none })
      ∷ (record {
        name = "issued_at";
        type = date_time true;
        nullable = false;
        server_default = none;
      })
      ∷ (record {
        name = "expires_at";
        type = date_time true;
        nullable = false;
        server_default = none;
      })
      ∷ (record {
        name = "revoked_at";
        type = date_time true;
        nullable = true;
        server_default = none;
      })
      ∷ (record { name = "replaced_by"; type = uuid; nullable = true; server_default = none })
      ∷ [];
  foreign_keys =
      (record {
        column = "replaced_by";
        target = "refresh_tokens";
        target_column = "id";
        ondelete = set_null;
        deferred = true;
        constraint_name = none;
      })
      ∷ (record {
        column = "user_id";
        target = "users";
        target_column = "id";
        ondelete = cascade;
        deferred = false;
        constraint_name = none;
      })
      ∷ [];
  primary_key = "id" ∷ [];
}

abbrev pub user_profiles : Table
user_profiles = record {
  name = "user_profiles";
  columns =
      (record { name = "id"; type = uuid; nullable = false; server_default = none })
      ∷ (record { name = "email"; type = string 255; nullable = false; server_default = none })
      ∷ (record {
        name = "created_at";
        type = date_time true;
        nullable = false;
        server_default = (some "now()");
      })
      ∷ (record {
        name = "updated_at";
        type = date_time true;
        nullable = false;
        server_default = (some "now()");
      })
      ∷ [];
  foreign_keys =
      (record {
        column = "id";
        target = "users";
        target_column = "id";
        ondelete = cascade;
        deferred = false;
        constraint_name = (some "fk_user_profiles_id_users");
      })
      ∷ [];
  primary_key = "id" ∷ [];
}

abbrev pub ix_users_email : Index
ix_users_email = record {
  name = "ix_users_email";
  table = "users";
  columns = "email" ∷ [];
  unique = true;
  postgresql_where = none;
}

abbrev pub ix_users_tenant_id : Index
ix_users_tenant_id = record {
  name = "ix_users_tenant_id";
  table = "users";
  columns = "tenant_id" ∷ [];
  unique = false;
  postgresql_where = none;
}

abbrev pub ix_refresh_tokens_family_id : Index
ix_refresh_tokens_family_id = record {
  name = "ix_refresh_tokens_family_id";
  table = "refresh_tokens";
  columns = "family_id" ∷ [];
  unique = false;
  postgresql_where = none;
}

abbrev pub ix_refresh_tokens_hash : Index
ix_refresh_tokens_hash = record {
  name = "ix_refresh_tokens_hash";
  table = "refresh_tokens";
  columns = "hash" ∷ [];
  unique = true;
  postgresql_where = none;
}

abbrev pub ix_refresh_tokens_user_id : Index
ix_refresh_tokens_user_id = record {
  name = "ix_refresh_tokens_user_id";
  table = "refresh_tokens";
  columns = "user_id" ∷ [];
  unique = false;
  postgresql_where = none;
}

abbrev pub ix_refresh_tokens_family_active : Index
ix_refresh_tokens_family_active = record {
  name = "ix_refresh_tokens_family_active";
  table = "refresh_tokens";
  columns = "family_id" ∷ [];
  unique = true;
  postgresql_where = (some "replaced_by IS NULL");
}

abbrev pub ix_user_profiles_email : Index
ix_user_profiles_email = record {
  name = "ix_user_profiles_email";
  table = "user_profiles";
  columns = "email" ∷ [];
  unique = true;
  postgresql_where = none;
}

module _ (op : Op) where
  unfoldable pub upgrade_base : Action Schema (Unit {0})
  upgrade_base = op.create_extension "vector"

  unfoldable pub downgrade_base : Action Schema (Unit {0})
  downgrade_base = op.drop_extension "vector"

  unfoldable pub upgrade_auth : Action Schema (Unit {0})
  upgrade_auth = do
    op.create_table users
    op.create_index ix_users_email
    op.create_index ix_users_tenant_id
    op.create_table refresh_tokens
    op.create_index ix_refresh_tokens_family_id
    op.create_index ix_refresh_tokens_hash
    op.create_index ix_refresh_tokens_user_id
    op.create_index ix_refresh_tokens_family_active

  unfoldable pub downgrade_auth : Action Schema (Unit {0})
  downgrade_auth = do
    op.drop_index "ix_refresh_tokens_family_active"
    op.drop_index "ix_refresh_tokens_user_id"
    op.drop_index "ix_refresh_tokens_hash"
    op.drop_index "ix_refresh_tokens_family_id"
    op.drop_table "refresh_tokens"
    op.drop_index "ix_users_tenant_id"
    op.drop_index "ix_users_email"
    op.drop_table "users"

  unfoldable pub upgrade_users : Action Schema (Unit {0})
  upgrade_users = do op.create_table user_profiles; op.create_index ix_user_profiles_email

  unfoldable pub downgrade_users : Action Schema (Unit {0})
  downgrade_users = do op.drop_index "ix_user_profiles_email"; op.drop_table "user_profiles"
