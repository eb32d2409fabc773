-- ===== src/Infrastructure/Idempotency/Lifecycle.antt =====
-- A key is new once, then in flight, then done, as long as its time to live runs.
use Prim.Native.String.{◌++◌}
use mathlib.Core.Bool.{false≢true}
use mathlib.Core.Path.{subst}
use package.text.Mathlib.Text.{starts_with}
use package.text.Mathlib.TextPositions.{starts_with-append, slice-append_right, len-append}
use ai_backend_foundation.Infrastructure.Idempotency.{
  Redis, begin_record, complete_record, decode_record, done_record, get_record, in_flight_record,
  new_record, or_in_flight, redis_key,
}
use ai_backend_foundation.Prelude.{
  Bool-cases, String, ap, arith, eq_iff, false, inl, inr, none, refl, some, str_eq, true, ℕ, ◌*◌,
  ◌+◌, ◌<◌, ◌∙◌, ◌≡◌, ◌≤◌,
}
use ai_backend_foundation.Shared.Types.{DateTime, microseconds}
use ai_backend_foundation.Shared.Values.{text}

-- What is written for a hash is read back as that hash.
decode-done : (h : String) → decode_record ("done:" ++ h) ≡ some (done_record h)
unfolding decode_record
decode-done h =
    rw (differs, starts_with-append "done:" h, len-append "done:" h, slice-append_right "done:" h)
      refl
  where
    differs : str_eq ("done:" ++ h) "in_flight" ≡ false
    differs = elim (Bool-cases (str_eq ("done:" ++ h) "in_flight")) [
      | inr e ↦ e
      | inl same ↦ absurd (
          false≢true (
            subst (λ x. starts_with x "done:" ≡ true) ((eq_iff ("done:" ++ h) "in_flight").0 same)
              (starts_with-append "done:" h)))
    ]

-- A key that is there is answered by its value.
begin-present :
    (redis : Redis) (key : String) (now : DateTime) (ttl_s : ℕ) (val : String) (s : redis.Store)
    → redis.get now (redis_key redis key) s ≡ some val
    → (begin_record redis key now now ttl_s s).0 ≡ or_in_flight (decode_record val)
unfolding begin_record get_record
begin-present redis key now ttl_s val s h =
    rw (redis.set_present now _ "in_flight" val ttl_s s h, h) refl

module _ (redis : Redis) (key : String) (s : redis.Store) (start : DateTime) (ttl_s : ℕ)
    (absent : redis.get start (redis_key redis key) s ≡ none) where
  abbrev begun : redis.Store
  begun = (begin_record redis key start start ttl_s s).1

  -- Of an absent key the first `begin` answers that it is new. While its time to live runs, a later
  -- `begin` answers that it is in flight; and after a `complete`, that it is done, with the hash given
  -- there. None of the later ones is answered that the key is new.
  pub begin-lifecycle :
      (response_hash : String) (second completed third : DateTime)
      → start ≤ second
      → second < start + ttl_s * microseconds
      → start ≤ completed
      → completed ≤ third
      → third < start + ttl_s * microseconds
      → ((begin_record redis key start start ttl_s s).0 ≡ new_record)
        × ((begin_record redis key second second ttl_s begun).0 ≡ in_flight_record)
        × ((begin_record redis key third third ttl_s
              (complete_record redis key completed response_hash begun)).0
            ≡ done_record response_hash)
  unfolding begin_record complete_record get_record decode_record
  begin-lifecycle response_hash second completed third a b c d e = (
    rw (redis.set_absent start _ "in_flight" ttl_s s absent) refl,
    begin-present redis key second ttl_s "in_flight" begun (held second a b),
    begin-present redis key third ttl_s ("done:" ++ response_hash) _ (
          redis.get_replaced completed third _ _ "in_flight" begun
            (held completed c (omega (arith, d, e))) d (held third (omega (arith, c, d)) e))
        ∙ ap or_in_flight (decode-done response_hash),
  )
    where
      held :
          (later : DateTime)
          → start ≤ later
          → later < start + ttl_s * microseconds
          → redis.get later (redis_key redis key) begun ≡ some "in_flight"
      held later from_start before_end =
          redis.get_set start later _ "in_flight" ttl_s s absent from_start before_end
