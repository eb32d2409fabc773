-- ===== src/Migrations.antt =====
-- What the migrations of alembic/versions are made of: the schema, and the operations of Alembic, which
-- are a parameter. `Versions` are the migrations, `RoundTrip` is about going up and down again.
pub mod Versions
pub mod RoundTrip
use ai_backend_foundation.Action.{Action, ok}
use ai_backend_foundation.Prelude.{
  Bool, List, Option, String, all, any, false, not, str_eq, true, ℕ, ◌&&◌, ◌||◌, ◌∷◌, ◌≡◌,
}

pub data ColumnType : Type 0 where
  uuid : ColumnType
  string : ℕ → ColumnType
  date_time : Bool → ColumnType
  boolean : ColumnType

-- `sa.Column`. Of a server default only its text is kept.
pub record Column : Type 0 where
  pub name : String
  pub type : ColumnType
  pub nullable : Bool
  pub server_default : Option String

pub data OnDelete : Type 0 where
  set_null cascade : OnDelete

-- `sa.ForeignKeyConstraint` of one column
pub record ForeignKey : Type 0 where
  pub column : String
  pub target : String
  pub target_column : String
  pub ondelete : OnDelete
  pub deferred : Bool
  pub constraint_name : Option String

pub record Table : Type 0 where
  pub name : String
  pub columns : List Column
  pub foreign_keys : List ForeignKey
  pub primary_key : List String

pub record Index : Type 0 where
  pub name : String
  pub table : String
  pub columns : List String
  pub unique : Bool
  pub postgresql_where : Option String

pub record Schema : Type 0 where
  pub extensions : List String
  pub tables : List Table
  pub indexes : List Index

abbrev pub is_table : String → Table → Bool
is_table name t = str_eq t.name name

abbrev pub is_index : String → Index → Bool
is_index name i = str_eq i.name name

abbrev pub is_on : String → Index → Bool
is_on name i = str_eq i.table name

-- A table other than that of the name, with a foreign key to it.
abbrev pub refers_to : String → Table → Bool
refers_to name t = not (is_table name t) && any (λ f. str_eq f.target name) t.foreign_keys

-- Tables and indexes share their names.
abbrev pub has_relation : String → Schema → Bool
has_relation name s = any (is_table name) s.tables || any (is_index name) s.indexes

-- A table that a foreign key names has to be there, or is the table itself.
abbrev pub can_refer : Table → Schema → Bool
can_refer t s = all (λ f. str_eq f.target t.name || any (is_table f.target) s.tables) t.foreign_keys

abbrev pub has_extension : String → Schema → Bool
has_extension name s = any (λ x. str_eq x name) s.extensions

-- `m` returns and leaves `s'` behind.
pub record Runs (m : Action Schema (Unit {0})) (s s' : Schema) : Type 0 where
  pub runs : m s ≡ (ok tt, s')

-- `alembic.op` on a database with that schema, where it is used as its documentation and that of
-- PostgreSQL have it: what is created was not there and what it names is; what is dropped is there,
-- and no other table refers to it.
pub record Op : Type 0 where
  pub create_extension : String → Action Schema (Unit {0})
  pub drop_extension : String → Action Schema (Unit {0})
  pub create_table : Table → Action Schema (Unit {0})
  pub drop_table : String → Action Schema (Unit {0})
  pub create_index : Index → Action Schema (Unit {0})
  pub drop_index : String → Action Schema (Unit {0})
  pub creates_extension :
      (name : String) (s : Schema)
      → has_extension name s ≡ false
      → Runs (create_extension name) s (record s { extensions = name ∷ s.extensions })
  pub drops_extension :
      (name : String) (s : Schema)
      → has_extension name s ≡ false
      → Runs (drop_extension name) (record s { extensions = name ∷ s.extensions }) s
  pub creates_table :
      (t : Table) (s : Schema)
      → has_relation t.name s ≡ false
      → can_refer t s ≡ true
      → Runs (create_table t) s (record s { tables = t ∷ s.tables })
  pub drops_table :
      (t : Table) (s : Schema)
      → any (is_table t.name) s.tables ≡ false
      → any (refers_to t.name) s.tables ≡ false
      → any (is_on t.name) s.indexes ≡ false
      → Runs (drop_table t.name) (record s { tables = t ∷ s.tables }) s
  pub creates_index :
      (i : Index) (s : Schema)
      → has_relation i.name s ≡ false
      → any (is_table i.table) s.tables ≡ true
      → Runs (create_index i) s (record s { indexes = i ∷ s.indexes })
  pub drops_index :
      (i : Index) (s : Schema)
      → any (is_index i.name) s.indexes ≡ false
      → Runs (drop_index i.name) (record s { indexes = i ∷ s.indexes }) s
