-- ===== src/Shared/Types.antt =====
-- The values that the packages share: identifiers of type `UUID` are their 128-bit values, and a
-- `datetime` in UTC is its number of microseconds since 1970. app/shared/clock.py is here too, and
-- what Python's `uuid` gives.
use ai_backend_foundation.Prelude.{ℕ, ◌*◌, String, Option}

abbrev pub Uuid : Type 0
Uuid = ℕ

abbrev pub DateTime : Type 0
DateTime = ℕ

abbrev pub microseconds : ℕ
microseconds = 1_000_000

-- `timedelta(minutes=n)` and `timedelta(days=n)`
abbrev pub minutes : ℕ → ℕ
minutes n = n * 60_000_000

abbrev pub days : ℕ → ℕ
days n = n * 86_400_000_000

-- The answer of a clock may differ at each call; the argument is the number of the call.
pub record Clock : Type 0 where
  pub now : ℕ → DateTime

-- `uuid4()`, `str(u)`, and `UUID(s)`, which raises `ValueError` on a malformed text.
pub record UuidModule : Type 0 where
  pub uuid4 : ℕ → Uuid
  pub str : Uuid → String
  pub parse : String → Option Uuid
