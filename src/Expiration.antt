-- ===== src/Expiration.antt =====
-- packages/utils/src/expiration.rs: when an allowance ends. `plus_seconds` is cosmwasm_std's.
pub mod Laws
use Prim.Native.Nat.{compare, Ordering}
use demurrage_token.Base.{ℕ, ◌*◌, Option, none, some, Bool, false, leb}
use demurrage_token.Outcome.{Outcome, ok, err, or_panic, ◌>>=◌}
use demurrage_token.Outcome.Word.{add64, mul64}
use demurrage_token.Std.{StdError, generic_err, Timestamp, BlockInfo}

pub data Expiration : Type 0 where
  at_height : ℕ → Expiration
  at_time : Timestamp → Expiration
  never : Expiration

-- `impl Default for Expiration`
abbrev pub default_expiration : Expiration
default_expiration = never

unfoldable pub is_expired : Expiration → BlockInfo → Bool
is_expired (at_height height) block = leb height block.height
is_expired (at_time time) block = leb time block.time
is_expired never block = false

pub data Duration : Type 0 where
  height_delta : ℕ → Duration
  time_delta : ℕ → Duration

abbrev pub hour : Duration
hour = time_delta (60 * 60)

abbrev pub day : Duration
day = time_delta (24 * 60 * 60)

abbrev pub week : Duration
week = time_delta (7 * 24 * 60 * 60)

-- `Duration::plus_one`
unfoldable pub plus_one : Duration → Outcome StdError Duration
plus_one (height_delta h) = do h' ← add64 h 1; ok (height_delta h')
plus_one (time_delta t) = do t' ← add64 t 1; ok (time_delta t')

-- `impl Add<Duration> for Duration`
unfoldable pub add_durations : Duration → Duration → Outcome StdError Duration
add_durations (time_delta t) (time_delta t2) = do sum ← add64 t t2; ok (time_delta sum)
add_durations (height_delta h) (height_delta h2) = do sum ← add64 h h2; ok (height_delta sum)
add_durations (time_delta t) (height_delta h) = err (generic_err "Cannot add height and time")
add_durations (height_delta h) (time_delta t) = err (generic_err "Cannot add height and time")

-- `impl Mul<u64> for Duration`
unfoldable pub mul_duration : Duration → ℕ → Outcome StdError Duration
mul_duration (time_delta t) rhs = do product ← mul64 t rhs; ok (time_delta product)
mul_duration (height_delta h) rhs = do product ← mul64 h rhs; ok (height_delta product)

-- `impl PartialOrd for Expiration`
unfoldable pub partial_cmp : Expiration → Expiration → Option Ordering
partial_cmp (at_height h1) (at_height h2) = some (compare h1 h2)
partial_cmp (at_time t1) (at_time t2) = some (compare t1 t2)
partial_cmp never never = some Ordering.eq
partial_cmp never (at_height h) = some Ordering.gt
partial_cmp never (at_time t) = some Ordering.gt
partial_cmp (at_height h) never = some Ordering.lt
partial_cmp (at_time t) never = some Ordering.lt
partial_cmp (at_height h) (at_time t) = none
partial_cmp (at_time t) (at_height h) = none

-- `plus_seconds` is none where it panics on overflow.
module _ (plus_seconds : Timestamp → ℕ → Option Timestamp) where
  -- `impl Add<Duration> for Expiration`
  unfoldable pub add_duration : Expiration → Duration → Outcome StdError Expiration
  add_duration (at_time t) (time_delta delta) = do
    t' ← or_panic (plus_seconds t delta)
    ok (at_time t')
  add_duration (at_height h) (height_delta delta) = do h' ← add64 h delta; ok (at_height h')
  add_duration never (time_delta delta) = ok never
  add_duration never (height_delta delta) = ok never
  add_duration (at_time t) (height_delta delta) = err (generic_err "Cannot add height and time")
  add_duration (at_height h) (time_delta delta) = err (generic_err "Cannot add height and time")

  -- `Duration::after`
  unfoldable pub after : Duration → BlockInfo → Outcome StdError Expiration
  after (height_delta h) block = do h' ← add64 block.height h; ok (at_height h')
  after (time_delta t) block = do t' ← or_panic (plus_seconds block.time t); ok (at_time t')
