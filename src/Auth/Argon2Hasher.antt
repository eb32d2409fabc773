-- ===== src/Auth/Argon2Hasher.antt =====
-- app/auth/adapters/argon2_hasher.py: `Argon2PasswordHasher`. argon2-cffi is a parameter.
use ai_backend_foundation.Auth.Ports.{PasswordHasher}
use ai_backend_foundation.Prelude.{Bool, Option, String, ap, false, none, some, true, ℕ, ◌≡◌}

-- What a call of the library returns, or which of the exceptions that the adapter names it raises.
pub data Argon2Result : Type 0 where
  answered : Bool → Argon2Result
  verify_mismatch_error verification_error invalid_hash_error : Argon2Result

-- A hasher of argon2-cffi. Its salts are random: a hash depends on the number of the question.
pub record Argon2Hasher : Type 0 where
  pub hash : ℕ → String → String
  pub verify : String → String → Argon2Result
  -- `none` where it raises `InvalidHashError`
  pub check_needs_rehash : String → Option Bool
  -- A hash verifies the password that it was made of.
  pub verifies : (n : ℕ) (password : String) → verify (hash n password) password ≡ answered true

-- `except (VerifyMismatchError, VerificationError, InvalidHashError): return False`
abbrev pub or_false : Argon2Result → Bool
or_false (answered b) = b
or_false verify_mismatch_error = false
or_false verification_error = false
or_false invalid_hash_error = false

-- `except InvalidHashError: return True`
abbrev pub or_true : Option Bool → Bool
or_true none = true
or_true (some b) = b

-- The adapter as an implementation of the port `PasswordHasher`.
unfoldable pub argon2_password_hasher : Argon2Hasher → PasswordHasher
argon2_password_hasher argon2 = record {
  hash = argon2.hash;
  verify = λ password password_hash. or_false (argon2.verify password_hash password);
  needs_rehash = λ password_hash. or_true (argon2.check_needs_rehash password_hash);
}

-- The adapter verifies a password against its own hash.
pub argon2_password_hasher-verify :
    (argon2 : Argon2Hasher) (n : ℕ) (password : String)
    → (argon2_password_hasher argon2).verify password
        ((argon2_password_hasher argon2).hash n password)
      ≡ true
unfolding argon2_password_hasher
argon2_password_hasher-verify argon2 n password = ap or_false (argon2.verifies n password)
