-- ===== src/Utils/Scheduled.antt =====
-- packages/utils/src/scheduled.rs, and that it is an expiration that always comes.
use Prim.Native.Nat.{compare, Ordering}
use demurrage_token.Base.{ℕ, ◌≡◌, arith, Bool, leb, Option, some, none}
use demurrage_token.Outcome.{Outcome, ok, err, or_panic, ◌>>=◌}
use demurrage_token.Outcome.Word.{add64}
use demurrage_token.Std.{StdError, generic_err, Timestamp, BlockInfo}
use demurrage_token.Expiration
use demurrage_token.Expiration.{
  Expiration, Duration, height_delta, time_delta, is_expired, add_duration,
}

pub data Scheduled : Type 0 where
  at_height : ℕ → Scheduled
  at_time : Timestamp → Scheduled

pub is_triggered : Scheduled → BlockInfo → Bool
is_triggered (at_height height) block = leb height block.height
is_triggered (at_time time) block = leb time block.time

-- `impl PartialOrd for Scheduled`
pub partial_cmp : Scheduled → Scheduled → Option Ordering
partial_cmp (at_height h1) (at_height h2) = some (compare h1 h2)
partial_cmp (at_time t1) (at_time t2) = some (compare t1 t2)
partial_cmp (at_height h) (at_time t) = none
partial_cmp (at_time t) (at_height h) = none

-- The expiration at the same point.
abbrev pub to_expiration : Scheduled → Expiration
to_expiration (at_height h) = Expiration.at_height h
to_expiration (at_time t) = Expiration.at_time t

abbrev pub map_to_expiration : Outcome StdError Scheduled → Outcome StdError Expiration
map_to_expiration r = r >>= λ s. ok (to_expiration s)

module _ (plus_seconds : Timestamp → ℕ → Option Timestamp) where
  -- `impl Add<Duration> for Scheduled`
  pub add_to_scheduled : Scheduled → Duration → Outcome StdError Scheduled
  add_to_scheduled (at_time t) (time_delta delta) = do
    t' ← or_panic (plus_seconds t delta)
    ok (at_time t')
  add_to_scheduled (at_height h) (height_delta delta) = do h' ← add64 h delta; ok (at_height h')
  add_to_scheduled (at_time t) (height_delta delta) = err (generic_err "Cannot add height and time")
  add_to_scheduled (at_height h) (time_delta delta) = err (generic_err "Cannot add height and time")

  -- A schedule is triggered where the expiration at its point has ended, moves with a duration as
  -- that does, its errors and panics included, and is compared with another as that is.
  pub Scheduled-Expiration :
      (s s' : Scheduled) (d : Duration) (block : BlockInfo)
      → (is_triggered s block ≡ is_expired (to_expiration s) block)
        × (map_to_expiration (add_to_scheduled s d) ≡ add_duration plus_seconds (to_expiration s) d)
        × (partial_cmp s s' ≡ Expiration.partial_cmp (to_expiration s) (to_expiration s'))
  unfolding is_triggered is_expired add_to_scheduled add_duration partial_cmp Expiration.partial_cmp
  Scheduled-Expiration s s' d block = (ground arith, ground arith, ground arith)
