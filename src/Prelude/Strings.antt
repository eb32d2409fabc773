-- ===== src/Prelude/Strings.antt =====
-- Texts of Python, cut at a character. A character is given by its code.
use Prim.Native.Nat.{ℕ}
use Prim.Native.Char.{Char, code}
use Prim.Native.String.{String}
use mathlib.Core.Bool.{Bool, false, ◌||◌}
use mathlib.Core.List.{List, [], ◌∷◌}
use ai_backend_foundation.Prelude.Tests.{if◌then◌else◌, ◌==◌}

-- `c in value`, for the code of a character
abbrev pub has_code : ℕ → String → Bool
has_code c String.[] = false
has_code c (String.◌∷◌ d s) = code d == c || has_code c s

abbrev pub starts_with_code : ℕ → String → Bool
starts_with_code c String.[] = false
starts_with_code c (String.◌∷◌ d s) = code d == c

abbrev pub first_longer : Char → List String → List String
first_longer c [] = String.◌∷◌ c String.[] ∷ []
first_longer c (w ∷ ws) = String.◌∷◌ c w ∷ ws

-- `value.split(c)`
abbrev pub split_at_code : ℕ → String → List String
split_at_code c String.[] = "" ∷ []
split_at_code c (String.◌∷◌ d s) =
    let rest = split_at_code c s in if code d == c then "" ∷ rest else first_longer d rest
