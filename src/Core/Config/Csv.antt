-- ===== src/Core/Config/Csv.antt =====
-- The lists that `_parse_csv_tuple` of app/core/config/settings.py reads.
use Prim.Native.Char.{code}
use Prim.Native.String.append
use Prim.Native.String.{◌++◌ as str_append}
use ai_backend_foundation.Action.{ok}
use ai_backend_foundation.Core.Config.{
  Environment, Pydantic, csv_entries, field, parse_csv_tuple, str_value, stripped, tuple_field,
}
use ai_backend_foundation.Prelude.{
  All, Bool-cases, List, Option, String, [], ap, arith, false, has_code, inl, inr, is_empty, refl,
  some, split_at_code, ℕ, ◌==◌, ◌∙◌, ◌∷◌, ◌≡◌,
}

-- `",".join(entries)`
abbrev pub join_csv : List String → String
join_csv [] = ""
join_csv (x ∷ []) = x
join_csv (x ∷ y ∷ entries) = str_append x (str_append "," (join_csv (y ∷ entries)))

split_at_code-alone : (c : ℕ) (s : String) → has_code c s ≡ false → split_at_code c s ≡ s ∷ []
split_at_code-alone c String.[] h = refl
split_at_code-alone c (String.◌∷◌ d s) h =
    let here : code d == c ≡ false = ground (arith, h) in
    rw (split_at_code-alone c s (ground (arith, h)), here) refl

-- The comma after `s` and what follows it.
split_at_code-comma :
    (s t : String)
    → has_code b',' s ≡ false
    → split_at_code b',' (str_append s (str_append "," t)) ≡ s ∷ split_at_code b',' t
split_at_code-comma String.[] t h =
    ap (split_at_code b',')
      (append.nil (str_append "," t) ∙ (append.cons "," "" t ∙ ap (String.◌∷◌ ",") (append.nil t)))
split_at_code-comma (String.◌∷◌ d s) t h =
    let here : code d == b',' ≡ false = ground (arith, h) in
    ap (split_at_code b',') (append.cons d s (str_append "," t))
    ∙ rw (split_at_code-comma s t (ground (arith, h)), here) refl

-- An entry that a list with commas can carry.
pub record IsEntry (strip : String → String) (entry : String) : Type 0 where
  pub is_stripped : strip entry ≡ entry
  pub not_empty : is_empty entry ≡ false
  pub no_comma : has_code b',' entry ≡ false

split-join_csv :
    (strip : String → String) (x : String) (entries : List String)
    → All (IsEntry strip) (x ∷ entries)
    → split_at_code b',' (join_csv (x ∷ entries)) ≡ x ∷ entries
split-join_csv strip x [] h = split_at_code-alone b',' x h.0.no_comma
split-join_csv strip x (y ∷ entries) h =
    split_at_code-comma x (join_csv (y ∷ entries)) h.0.no_comma
    ∙ ap (λ ys. x ∷ ys) (split-join_csv strip y entries h.1)

stripped_lem :
    (strip : String → String) (entries : List String)
    → All (IsEntry strip) entries
    → stripped strip entries ≡ entries
stripped_lem strip [] h = refl
stripped_lem strip (x ∷ entries) h =
    rw (h.0.is_stripped, h.0.not_empty, stripped_lem strip entries h.1) refl

csv_entries-join_csv :
    (pydantic : Pydantic) (entries : List String)
    → All (IsEntry pydantic.strip) entries
    → csv_entries pydantic (join_csv entries) ≡ entries
csv_entries-join_csv pydantic [] h = rw pydantic.strip_empty refl
csv_entries-join_csv pydantic (x ∷ entries) h =
    ap (stripped pydantic.strip) (split-join_csv pydantic.strip x entries h)
    ∙ stripped_lem pydantic.strip (x ∷ entries) h

-- A list field whose text in the environment is a list of entries joined by commas is that list, if
-- the entries are not empty, have no comma and no space at either end.
pub tuple_field-join_csv :
    (pydantic : Pydantic) (env : Environment) (aliases : List String)
    (default : Option (List String)) (entries : List String)
    → All (IsEntry pydantic.strip) entries
    → env aliases ≡ some (str_value (join_csv entries))
    → tuple_field pydantic aliases default env ≡ (ok entries, env)
unfolding tuple_field field parse_csv_tuple
tuple_field-join_csv pydantic env aliases default entries h found =
    rw (found, csv_entries-join_csv pydantic entries h, pydantic.tuple_kept entries) refl

stripped_entries :
    (pydantic : Pydantic) (entries : List String)
    → All (λ x. (pydantic.strip x ≡ x) × (is_empty x ≡ false)) (stripped pydantic.strip entries)
stripped_entries pydantic [] = tt
stripped_entries pydantic (x ∷ entries) = elim (Bool-cases (is_empty (pydantic.strip x))) [
  | inl empty ↦ rw empty (stripped_entries pydantic entries)
  | inr filled ↦
      rw filled ((pydantic.strip_idempotent x, filled), stripped_entries pydantic entries)
]

-- Whatever text a list field has in the environment, it is read, and no entry that it gives is empty
-- or has a space at an end.
pub tuple_field-stripped :
    (pydantic : Pydantic) (env : Environment) (aliases : List String)
    (default : Option (List String)) (v : String)
    → env aliases ≡ some (str_value v)
    → (entries : List String) × (tuple_field pydantic aliases default env ≡ (ok entries, env))
      × All (λ x. (pydantic.strip x ≡ x) × (is_empty x ≡ false)) entries
unfolding tuple_field field parse_csv_tuple
tuple_field-stripped pydantic env aliases default v found = (
  csv_entries pydantic v,
  rw (found, pydantic.tuple_kept (csv_entries pydantic v)) refl,
  stripped_entries pydantic (split_at_code b',' v),
)
