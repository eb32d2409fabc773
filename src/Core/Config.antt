-- ===== src/Core/Config.antt =====
-- app/core/config/settings.py: how a field is read and checked, and the lists that are separated by
-- commas. pydantic is a parameter. The state of an action is the environment, which none changes.
pub mod Csv
use ai_backend_foundation.Action.{Action, Outcome, ok, raised}
use ai_backend_foundation.Prelude.{
  Bool, List, Option, String, [], any, false, if◌then◌else◌, is_empty, leb, negsuc, none, pos, some,
  split_at_code, str_eq, true, ℕ, ℤ, ◌∷◌, ◌≡◌,
}
use ai_backend_foundation.Shared.Errors.{Exception, value_error}

-- What a field is given: a text from the environment, or a value from Python code.
pub data RawValue : Type 0 where
  str_value : String → RawValue
  list_value tuple_value : List String → RawValue
  other_value : RawValue

-- The value that pydantic-settings finds under the aliases of a field.
abbrev pub Environment : Type 0
Environment = List String → Option RawValue

-- The conversions of pydantic, `none` where it reports an error, and `str.strip`. Numbers with a point
-- are counts of millionths, and so is the budget.
pub record Pydantic : Type 0 where
  pub strip : String → String
  pub int_of : RawValue → Option ℤ
  pub float_of : RawValue → Option ℤ
  pub decimal_of : RawValue → Option ℤ
  pub bool_of : RawValue → Option Bool
  pub url_of : RawValue → Option String
  pub tuple_of : RawValue → Option (List String)
  pub strip_empty : strip "" ≡ ""
  pub strip_idempotent : (s : String) → strip (strip s) ≡ strip s
  -- A tuple of texts is what it is.
  pub tuple_kept : (entries : List String) → tuple_of (tuple_value entries) ≡ some entries

abbrev pub str_of : RawValue → Option String
str_of (str_value s) = some s
str_of _ = none

-- `Literal[…]`
abbrev pub literal_of : List String → RawValue → Option String
literal_of choices (str_value s) = if any (λ c. str_eq c s) choices then some s else none
literal_of choices _ = none

abbrev pub some_found : {A : Type 0} → Option A → Option (Option A)
some_found none = none
some_found (some a) = some (some a)

-- `… | None`, of a value that is there
abbrev pub optional_of : {A : Type 0} → (RawValue → Option A) → RawValue → Option (Option A)
optional_of convert raw = some_found (convert raw)

-- `ge=n`
abbrev pub at_least : ℕ → ℤ → Bool
at_least n (pos m) = leb n m
at_least n (negsuc m) = false

-- `gt=0`, of a count
abbrev pub above_zero : ℤ → Bool
above_zero = at_least 1

abbrev pub unbounded : {A : Type 0} → A → Bool
unbounded a = true

abbrev pub validation_error : String → Exception
validation_error problem = value_error problem

module _ {A : Type 0} (convert : RawValue → Option A) (bound : A → Bool) where
  abbrev pub checked : Option A → Outcome A
  checked none = raised (validation_error "Input should be of another type")
  checked (some a) =
      if bound a then ok a else raised (validation_error "Input should be in other bounds")

  abbrev pub read_value : Option A → Option RawValue → Outcome A
  read_value default (some raw) = checked (convert raw)
  read_value none none = raised (validation_error "Field required")
  read_value (some a) none = ok a

  -- `Field(default=…, …, validation_alias=AliasChoices(…))`. A default is not checked.
  unfoldable pub field : List String → Option A → Action Environment A
  field aliases default env = (read_value default (env aliases), env)

-- The entries that are not empty, `if s.strip()`.
abbrev pub stripped : (String → String) → List String → List String
stripped strip [] = []
stripped strip (s ∷ entries) =
    let rest = stripped strip entries in if is_empty (strip s) then rest else strip s ∷ rest

module _ (pydantic : Pydantic) where
  abbrev pub csv_entries : String → List String
  csv_entries v = stripped pydantic.strip (split_at_code b',' v)

  unfoldable pub parse_csv_tuple : RawValue → RawValue
  parse_csv_tuple (str_value v) = tuple_value (csv_entries v)
  parse_csv_tuple (list_value entries) = tuple_value entries
  parse_csv_tuple (tuple_value entries) = tuple_value entries
  parse_csv_tuple other_value = other_value

  -- A field with the validator `_split_csv`, or `ensure_tuple`, before pydantic's own.
  unfoldable pub tuple_field : List String → Option (List String) → Action Environment (List String)
  tuple_field aliases default =
      field (λ raw. pydantic.tuple_of (parse_csv_tuple raw)) unbounded aliases default
