-- ===== src/Shared/Values.antt =====
-- The values of Python that the program keeps in dictionaries, and the tests that it makes of them.
use ai_backend_foundation.Prelude.{
  Bool, List, Option, String, [], false, if◌then◌else◌, is_empty, none, not, some, str_eq, true, ℕ,
  ◌==◌, ◌∷◌,
}

-- The values that `extras`, claims and responses hold.
pub data Value : Type 0 where
  null : Value
  flag : Bool → Value
  number : ℕ → Value
  text : String → Value
  texts : List String → Value

abbrev pub Extras : Type 0
Extras = List (String × Value)

-- `d.get(key)`
abbrev pub get_claim : String → Extras → Option Value
get_claim key [] = none
get_claim key ((k, v) ∷ d) = if str_eq k key then some v else get_claim key d

-- `d.get(key) == s`
abbrev pub is_text : String → Option Value → Bool
is_text s (some (text t)) = str_eq t s
is_text s (some null) = false
is_text s (some (flag b)) = false
is_text s (some (number n)) = false
is_text s (some (texts ts)) = false
is_text s none = false

-- The truth value of `d.get(key)`.
abbrev pub is_true : Option Value → Bool
is_true none = false
is_true (some null) = false
is_true (some (flag b)) = b
is_true (some (number n)) = not (n == 0)
is_true (some (text s)) = not (is_empty s)
is_true (some (texts [])) = false
is_true (some (texts (t ∷ ts))) = true
