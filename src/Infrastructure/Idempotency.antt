-- ===== src/Infrastructure/Idempotency.antt =====
-- app/infrastructure/idempotency/redis.py: the states of an idempotency key. Redis is a parameter: the
-- commands that the class sends, with what the documentation of Redis says of them. A time to live is
-- in seconds, a time in microseconds.
pub mod Lifecycle
use Prim.Native.String.{◌++◌, slice, len}
use package.text.Mathlib.Text.{starts_with}
use ai_backend_foundation.Prelude.{
  Bool, Option, String, false, if◌then◌else◌, none, some, str_eq, true, ℕ, ◌*◌, ◌+◌, ◌<◌, ◌≡◌, ◌≤◌,
}
use ai_backend_foundation.Shared.Types.{DateTime, microseconds}
use ai_backend_foundation.Shared.Values.{text}

pub record Redis : Type 1 where
  pub Store : Type 0
  pub get : DateTime → String → Store → Option String
  pub set_nx_ex : DateTime → String → String → ℕ → Store → Bool × Store
  pub set_xx_keepttl : DateTime → String → String → Store → Store
  -- `SET … NX EX` on a key that is absent sets it until its time to live is over.
  pub set_absent :
      (now : DateTime) (key value : String) (ttl_s : ℕ) (s : Store)
      → get now key s ≡ none
      → (set_nx_ex now key value ttl_s s).0 ≡ true
  pub get_set :
      (now later : DateTime) (key value : String) (ttl_s : ℕ) (s : Store)
      → get now key s ≡ none
      → now ≤ later
      → later < now + ttl_s * microseconds
      → get later key (set_nx_ex now key value ttl_s s).1 ≡ some value
  -- On a key that is there it changes nothing.
  pub set_present :
      (now : DateTime) (key value old : String) (ttl_s : ℕ) (s : Store)
      → get now key s ≡ some old
      → set_nx_ex now key value ttl_s s ≡ (false, s)
  -- `SET … XX KEEPTTL` changes the value of a key that is there, and not when it goes.
  pub get_replaced :
      (now later : DateTime) (key value old : String) (s : Store)
      → get now key s ≡ some old
      → now ≤ later
      → get later key s ≡ some old
      → get later key (set_xx_keepttl now key value s) ≡ some value

pub data IdempotencyRecord : Type 0 where
  new_record in_flight_record : IdempotencyRecord
  done_record : String → IdempotencyRecord

-- `if val_str == "in_flight"`, `if val_str.startswith("done:")`, `val_str[5:]`
unfoldable pub decode_record : String → Option IdempotencyRecord
decode_record val =
    if str_eq val "in_flight"
    then some in_flight_record
    else if starts_with val "done:"
    then some (done_record (slice val 5 (len val)))
    else none

abbrev pub decode_value : Option String → Option IdempotencyRecord
decode_value none = none
decode_value (some val) = decode_record val

abbrev pub or_in_flight : Option IdempotencyRecord → IdempotencyRecord
or_in_flight none = in_flight_record
or_in_flight (some record_found) = record_found

module _ (redis : Redis) (key : String) where
  abbrev pub redis_key : String
  redis_key = "idem:" ++ key

  unfoldable pub get_record : DateTime → redis.Store → Option IdempotencyRecord
  get_record now s = decode_value (redis.get now redis_key s)

  -- `SET` is answered at the time `now`, the `GET` after it at `then_at`.
  unfoldable pub begin_record :
      DateTime → DateTime → ℕ → redis.Store → IdempotencyRecord × redis.Store
  begin_record now then_at ttl_s s =
      let (success, s') = redis.set_nx_ex now redis_key "in_flight" ttl_s s in
      (if success then new_record else or_in_flight (get_record then_at s'), s')

  unfoldable pub complete_record : DateTime → String → redis.Store → redis.Store
  complete_record now response_hash s =
      redis.set_xx_keepttl now redis_key ("done:" ++ response_hash) s
