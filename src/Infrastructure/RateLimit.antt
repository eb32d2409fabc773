-- ===== src/Infrastructure/RateLimit.antt =====
-- app/infrastructure/rate_limit/redis.py: the script of the token bucket, on the entry of one key in
-- Redis. The numbers of Lua, which are doubles, are a parameter. Times of Redis are microseconds.
pub mod Quota
use ai_backend_foundation.Prelude.{
  Bool, List, Option, [], if◌then◌else◌, leb, none, some, suc, true, ℕ, ◌%◌, ◌*◌, ◌+◌, ◌/◌, ◌∷◌,
  ◌≡◌, ◌≤◌,
}
use ai_backend_foundation.Shared.Types.{DateTime, microseconds}

-- Up to 2 ^ 53 every whole number is a double.
abbrev pub exact : ℕ
exact = 9007199254740992

-- The numbers of Lua, which are doubles, with its operations; of `math.floor` only the values that are
-- not negative count. The laws are those of IEEE 754: on whole numbers as far as they are exact, and
-- rounding is monotone, so that an earlier time less a later one is not above 0. Redis writes a number
-- with 17 digits, which `tonumber` reads as the same number.
pub record LuaNumbers : Type 1 where
  pub Number : Type 0
  pub of_nat : ℕ → Number
  pub add : Number → Number → Number
  pub sub : Number → Number → Number
  pub mul : Number → Number → Number
  pub div : Number → Number → Number
  pub le : Number → Number → Bool
  pub floor : Number → ℕ
  pub le_whole : (a b : ℕ) → a ≤ exact → b ≤ exact → le (of_nat a) (of_nat b) ≡ leb a b
  pub sub_whole : (n : ℕ) → suc n ≤ exact → sub (of_nat (suc n)) (of_nat 1) ≡ of_nat n
  pub floor_whole : (n : ℕ) → n ≤ exact → floor (of_nat n) ≡ n
  pub add_zero : (n : ℕ) → n ≤ exact → add (of_nat n) (of_nat 0) ≡ of_nat n
  pub mul_zero :
      (a b : ℕ)
      → a ≤ exact
      → 1 ≤ b
      → b ≤ exact
      → mul (of_nat 0) (div (of_nat a) (of_nat b)) ≡ of_nat 0
  pub earlier :
      (t u : DateTime)
      → t ≤ u
      → u ≤ exact
      → le
          (sub
            (add
              (of_nat (t / microseconds))
              (div (of_nat (t % microseconds)) (of_nat microseconds)))
            (add
              (of_nat (u / microseconds))
              (div (of_nat (u % microseconds)) (of_nat microseconds))))
          (of_nat 0)
        ≡ true

pub record RateLimitDecision : Type 0 where
  pub allowed : Bool
  pub remaining : ℕ
  pub reset_after_s : ℕ

-- What `HMSET` and `EXPIRE` leave under the key.
pub record Bucket (lua : LuaNumbers) : Type 0 where
  pub tokens : lua.Number
  pub ts : lua.Number
  pub expires_at : DateTime

module _ (lua : LuaNumbers) where
  -- `math.max(0, x)`
  abbrev pub max_zero : lua.Number → lua.Number
  max_zero x = if lua.le x (lua.of_nat 0) then lua.of_nat 0 else x

  -- `math.min(x, y)`
  abbrev pub min : lua.Number → lua.Number → lua.Number
  min x y = if lua.le x y then x else y

  -- `tonumber(time_res[1]) + (tonumber(time_res[2]) / 1000000)`
  abbrev pub time_of : DateTime → lua.Number
  time_of t =
      lua.add (lua.of_nat (t / microseconds))
        (lua.div (lua.of_nat (t % microseconds)) (lua.of_nat microseconds))

  -- `HMGET` on an entry that has expired gives nothing.
  abbrev pub live : DateTime → Option (Bucket lua) → Option (Bucket lua)
  live t none = none
  live t (some b) = if leb b.expires_at t then none else some b

  module _ (quota window_s : ℕ) where
    abbrev pub refilled : lua.Number → Option (Bucket lua) → lua.Number
    refilled now none = lua.of_nat quota
    refilled now (some b) =
        let elapsed = max_zero (lua.sub now b.ts) in
        let refill = lua.mul elapsed (lua.div (lua.of_nat quota) (lua.of_nat window_s)) in
        min (lua.of_nat quota) (lua.add b.tokens refill)

    abbrev pub decide : DateTime → lua.Number → RateLimitDecision × Option (Bucket lua)
    decide t tokens =
        let allowed = lua.le (lua.of_nat 1) tokens in
        let rest = if allowed then lua.sub tokens (lua.of_nat 1) else tokens in
        (
          record { allowed = allowed; remaining = lua.floor rest; reset_after_s = window_s },
          some (record { tokens = rest; ts = time_of t; expires_at = t + window_s * microseconds }),
        )

    -- `RedisRateLimiter.allow` at the time `t` of the server.
    unfoldable pub allow : DateTime → Option (Bucket lua) → RateLimitDecision × Option (Bucket lua)
    allow t bucket = decide t (refilled (time_of t) (live t bucket))

    -- What the calls at the given times are told.
    unfoldable pub decisions : List DateTime → Option (Bucket lua) → List RateLimitDecision
    decisions [] bucket = []
    decisions (t ∷ times) bucket =
        let (decision, bucket') = allow t bucket in decision ∷ decisions times bucket'
