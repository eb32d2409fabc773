-- ===== src/Auth/Ports.antt =====
-- app/auth/ports.py. Whatever an answer of these components depends on beside its arguments (the hour, the
-- entropy, the salt) is the number of the call: each may answer every call differently.
use ai_backend_foundation.Action.{Outcome}
use ai_backend_foundation.Prelude.{Bool, List, String, ℕ}
use ai_backend_foundation.Shared.Values.{Value}

abbrev pub Claims : Type 0
Claims = List (String × Value)

pub record PasswordHasher : Type 0 where
  pub hash : ℕ → String → String
  pub verify : String → String → Bool
  pub needs_rehash : String → Bool

pub record TokenSigner : Type 0 where
  pub sign : ℕ → Claims → String
  pub verify : ℕ → String → Outcome Claims
