-- ===== src/Tests/Migrations.antt =====
-- Tests of the migrations of alembic/versions.
use ai_backend_foundation.Action.{Action, modify, ok, raise_if, ◌>>=◌, ◌>>◌}
use ai_backend_foundation.Migrations.{
  Index, Op, Runs, Schema, Table, can_refer, has_extension, has_relation, is_index, is_on, is_table,
  refers_to, string,
}
use ai_backend_foundation.Migrations.RoundTrip.{
  downgrade_all, upgrade_all, upgrade_all-downgrade_all,
}
use ai_backend_foundation.Shared.Errors.{unexpected_error}
use ai_backend_foundation.Prelude.{
  Bool, List, String, any, arith, eq_refl, if◌then◌else◌, not, str_eq, [], false, none, refl, true,
  ◌∷◌, ◌≡◌,
}

-- The operations as PostgreSQL carries them out, with an error where it refuses one.
abbrev reject {ℓ} : {A : Type ℓ} → (A → Bool) → List A → List A
reject p [] = []
reject p (x ∷ xs) = if p x then reject p xs else x ∷ reject p xs

abbrev refuse_if : (Schema → Bool) → Action Schema (Unit {0})
refuse_if test s = raise_if (test s) (unexpected_error "ProgrammingError") s

unfoldable create_extension : String → Action Schema (Unit {0})
create_extension name = modify λ s.
    if any (λ x. str_eq x name) s.extensions
    then s
    else record s { extensions = name ∷ s.extensions }

unfoldable drop_extension : String → Action Schema (Unit {0})
drop_extension name = modify λ s. record s { extensions = reject (λ x. str_eq x name) s.extensions }

unfoldable create_table : Table → Action Schema (Unit {0})
create_table t = do
  refuse_if (has_relation t.name)
  refuse_if (λ s. not (can_refer t s))
  modify (λ s. record s { tables = t ∷ s.tables })

unfoldable create_index : Index → Action Schema (Unit {0})
create_index i = do
  refuse_if (has_relation i.name)
  refuse_if (λ s. not (any (is_table i.table) s.tables))
  modify (λ s. record s { indexes = i ∷ s.indexes })

unfoldable drop_index : String → Action Schema (Unit {0})
drop_index name = do
  refuse_if (λ s. not (any (is_index name) s.indexes))
  modify (λ s. record s { indexes = reject (is_index name) s.indexes })

-- With the indexes of the table. PostgreSQL refuses it while another table refers to the table.
unfoldable drop_table : String → Action Schema (Unit {0})
drop_table name = do
  refuse_if (λ s. not (any (is_table name) s.tables))
  refuse_if (λ s. any (refers_to name) s.tables)
  modify (λ s. record s {
    tables = reject (is_table name) s.tables;
    indexes = reject (is_on name) s.indexes;
  })

reject-any {ℓ} : {A : Type ℓ} (p : A → Bool) (xs : List A) → any p xs ≡ false → reject p xs ≡ xs
reject-any p [] h = refl
reject-any p (x ∷ xs) h = ground (arith, h, reject-any p xs)

reject-head {ℓ} :
    {A : Type ℓ} (p : A → Bool) (x : A) (xs : List A)
    → p x ≡ true
    → any p xs ≡ false
    → reject p (x ∷ xs) ≡ xs
reject-head p x xs here h = rw (here, reject-any p xs h) refl

Runs-create_table :
    (t : Table) (s : Schema)
    → has_relation t.name s ≡ false
    → can_refer t s ≡ true
    → Runs (create_table t) s (record s { tables = t ∷ s.tables })
unfolding create_table raise_if modify ◌>>=◌
Runs-create_table t s new known = record { runs = rw (new, known) refl }

Runs-create_index :
    (i : Index) (s : Schema)
    → has_relation i.name s ≡ false
    → any (is_table i.table) s.tables ≡ true
    → Runs (create_index i) s (record s { indexes = i ∷ s.indexes })
unfolding create_index raise_if modify ◌>>=◌
Runs-create_index i s new known = record { runs = rw (new, known) refl }

Runs-drop_index :
    (i : Index) (s : Schema)
    → any (is_index i.name) s.indexes ≡ false
    → Runs (drop_index i.name) (record s { indexes = i ∷ s.indexes }) s
unfolding drop_index raise_if modify ◌>>=◌
Runs-drop_index i s gone = record {
  runs = rw (eq_refl i.name, reject-head (is_index i.name) i s.indexes (eq_refl i.name) gone) refl;
}

Runs-drop_table :
    (t : Table) (s : Schema)
    → any (is_table t.name) s.tables ≡ false
    → any (refers_to t.name) s.tables ≡ false
    → any (is_on t.name) s.indexes ≡ false
    → Runs (drop_table t.name) (record s { tables = t ∷ s.tables }) s
unfolding drop_table raise_if modify ◌>>=◌
Runs-drop_table t s gone unused bare =
    let itself : refers_to t.name t ≡ false = rw (eq_refl t.name) refl in
    record {
      runs =
          rw
            (
              eq_refl t.name,
              itself,
              unused,
              reject-head (is_table t.name) t s.tables (eq_refl t.name) gone,
              reject-any (is_on t.name) s.indexes bare,
            )
            refl;
    }

Runs-create_extension :
    (name : String) (s : Schema)
    → has_extension name s ≡ false
    → Runs (create_extension name) s (record s { extensions = name ∷ s.extensions })
unfolding create_extension modify
Runs-create_extension name s missing = record { runs = rw missing refl }

Runs-drop_extension :
    (name : String) (s : Schema)
    → has_extension name s ≡ false
    → Runs (drop_extension name) (record s { extensions = name ∷ s.extensions }) s
unfolding drop_extension modify
Runs-drop_extension name s missing = record {
  runs = rw (reject-head (λ x. str_eq x name) name s.extensions (eq_refl name) missing) refl;
}

abbrev postgres : Op
postgres = record {
  create_extension = create_extension;
  drop_extension = drop_extension;
  create_table = create_table;
  drop_table = drop_table;
  create_index = create_index;
  drop_index = drop_index;
  creates_extension = Runs-create_extension;
  drops_extension = Runs-drop_extension;
  creates_table = Runs-create_table;
  drops_table = Runs-drop_table;
  creates_index = Runs-create_index;
  drops_index = Runs-drop_index;
}

-- A database with the table in which Alembic notes the revision.
abbrev noted : Schema
noted = record {
  extensions = "plpgsql" ∷ [];
  tables =
      (record {
        name = "alembic_version";
        columns =
            (record {
              name = "version_num";
              type = string 32;
              nullable = false;
              server_default = none;
            })
            ∷ [];
        foreign_keys = [];
        primary_key = "version_num" ∷ [];
      })
      ∷ [];
  indexes =
      (record {
        name = "alembic_version_pkc";
        table = "alembic_version";
        columns = "version_num" ∷ [];
        unique = true;
        postgresql_where = none;
      })
      ∷ [];
}

upgrade_all-downgrade_all_example :
    ((upgrade_all postgres noted).0 ≡ ok tt)
    × ((upgrade_all postgres >> downgrade_all postgres) noted ≡ (ok tt, noted))
upgrade_all-downgrade_all_example = upgrade_all-downgrade_all postgres noted refl (record {
  users = record {
    free = record { no_table = refl; no_index = refl };
    no_index_on = refl;
    no_reference = refl;
  };
  refresh_tokens = record {
    free = record { no_table = refl; no_index = refl };
    no_index_on = refl;
    no_reference = refl;
  };
  user_profiles = record {
    free = record { no_table = refl; no_index = refl };
    no_index_on = refl;
    no_reference = refl;
  };
  free_indexes = (
    record { no_table = refl; no_index = refl },
    (
      record { no_table = refl; no_index = refl },
      (
        record { no_table = refl; no_index = refl },
        (
          record { no_table = refl; no_index = refl },
          (
            record { no_table = refl; no_index = refl },
            (
              record { no_table = refl; no_index = refl },
              (record { no_table = refl; no_index = refl }, tt),
            ),
          ),
        ),
      ),
    ),
  );
})
