-- ===== src/Tests/Infrastructure.antt =====
-- Tests of app/infrastructure.
use ai_backend_foundation.Infrastructure.Idempotency.{
  Redis, begin_record, complete_record, done_record, in_flight_record, new_record,
}
use ai_backend_foundation.Infrastructure.Idempotency.Lifecycle.{begin-lifecycle}
use ai_backend_foundation.Infrastructure.RateLimit.{LuaNumbers, decisions}
use ai_backend_foundation.Infrastructure.RateLimit.Quota.{decisions-countdown}
use ai_backend_foundation.Prelude.{
  Bool, Option, String, [], arith, false, if◌then◌else◌, leb, ltb, none, refl, some, true, ℕ, ◌%◌,
  ◌*◌, ◌+◌, ◌-◌, ◌/◌, ◌∷◌, ◌≡◌, ◌≤◌,
}
use ai_backend_foundation.Shared.Types.{DateTime, microseconds}

seconds_earlier :
    (t u : DateTime)
    → t ≤ u
    → leb
        ((t / microseconds + t % microseconds / microseconds)
          - (u / microseconds + u % microseconds / microseconds))
        0
      ≡ true
seconds_earlier t u h = ground (arith, h)

-- Whole numbers in place of doubles.
abbrev whole_numbers : LuaNumbers
whole_numbers = record {
  Number = ℕ;
  of_nat = λ n. n;
  add = λ x y. x + y;
  sub = λ x y. x - y;
  mul = λ x y. x * y;
  div = λ x y. x / y;
  le = leb;
  floor = λ x. x;
  le_whole = λ a b h k. refl;
  sub_whole = λ n h. omega arith;
  floor_whole = λ n h. refl;
  add_zero = λ n h. omega arith;
  mul_zero = λ a b h k j. omega arith;
  earlier = λ t u h k. seconds_earlier t u h;
}

decisions-countdown_example :
    decisions whole_numbers 2 60 (500_007 ∷ 500_007 ∷ 500_005 ∷ []) none
    ≡ record { allowed = true; remaining = 1; reset_after_s = 60 }
      ∷ record { allowed = true; remaining = 0; reset_after_s = 60 }
      ∷ record { allowed = false; remaining = 0; reset_after_s = 60 }
      ∷ []
decisions-countdown_example =
    decisions-countdown whole_numbers 2 60 (omega arith) (omega arith) (omega arith) 500_007
      (500_007 ∷ 500_005 ∷ []) (omega arith, (omega arith, tt)) (omega arith)

-- A store with one key.
abbrev Entry : Type 0
Entry = Option (String × DateTime)

abbrev entry_get : DateTime → Entry → Option String
entry_get now none = none
entry_get now (some (value, expires_at)) = if ltb now expires_at then some value else none

abbrev entry_set_nx : DateTime → String → ℕ → Option String → Entry → Bool × Entry
entry_set_nx now value ttl_s none s = (true, some (value, now + ttl_s * microseconds))
entry_set_nx now value ttl_s (some old) s = (false, s)

abbrev entry_replace : String → Option String → Entry → Entry
entry_replace value none s = s
entry_replace value (some old) none = none
entry_replace value (some old) (some (v, expires_at)) = some (value, expires_at)

entry_get-replace :
    (now later : DateTime) (value old : String) (s : Entry)
    → entry_get now s ≡ some old
    → entry_get later s ≡ some old
    → entry_get later (entry_replace value (entry_get now s) s) ≡ some value
entry_get-replace now later value old none h k = cc
entry_get-replace now later value old (some (v, expires_at)) h k = ground (arith, h, k)

abbrev one_key : Redis
one_key = record {
  Store = Entry;
  get = λ now key s. entry_get now s;
  set_nx_ex = λ now key value ttl_s s. entry_set_nx now value ttl_s (entry_get now s) s;
  set_xx_keepttl = λ now key value s. entry_replace value (entry_get now s) s;
  set_absent = λ now key value ttl_s s h. rw h refl;
  get_set = λ now later key value ttl_s s h after before. rw h (ground (arith, before));
  set_present = λ now key value old ttl_s s h. rw h refl;
  get_replaced = λ now later key value old s h after k. entry_get-replace now later value old s h k;
}

begin-lifecycle_example :
    ((begin_record one_key "k" 0 0 1 none).0 ≡ new_record)
    × ((begin_record one_key "k" 1 1 1 (begin_record one_key "k" 0 0 1 none).1).0
        ≡ in_flight_record)
    × ((begin_record one_key "k" 3 3 1
          (complete_record one_key "k" 2 "h" (begin_record one_key "k" 0 0 1 none).1)).0
        ≡ done_record "h")
begin-lifecycle_example =
    begin-lifecycle one_key "k" none 0 1 refl "h" 1 2 3 (omega arith) (omega arith) (omega arith)
      (omega arith) (omega arith)
