-- ===== src/Auth/Atomic.antt =====
-- Which methods of `AuthService` can fail after they have written: nothing is committed before the
-- end of a method, except where a reused token revokes its family.
pub mod Statements
pub mod Service
use ai_backend_foundation.Action.{Action}
use ai_backend_foundation.Action.Rules.{Ensures}
use ai_backend_foundation.Database.{Database, World}
use ai_backend_foundation.Prelude.{◌≡◌, ◌⊎◌}
use ai_backend_foundation.Shared.Errors.{Exception}

-- The committed tables are those of `d`.
abbrev pub Uncommitted : Database → World → Type 0
Uncommitted d w = w.committed ≡ d

-- An exception of `m` leaves the committed tables as they were, or is one of the cases `E`.
abbrev pub IsClean : {A : Type 0} → Database → (Exception → Type 0) → Action World A → Type 0
IsClean d E m = Ensures (Uncommitted d) m (λ _ _. Unit) (λ e w. (w.committed ≡ d) ⊎ E e)
