-- ===== src/Expiration/Laws.antt =====
-- Expirations of packages/utils/src/expiration.rs over the blocks that follow, and their order.
use Prim.Native.Nat.{Ordering}
use demurrage_token.Base.{ℕ, ◌+◌, ◌≤◌, ◌≡◌, arith, true, Option, some, Option-cases, inl, inr}
use demurrage_token.Outcome.{ok}
use demurrage_token.Std.{BlockInfo, Timestamp}
use demurrage_token.Expiration.{
  Expiration, at_height, at_time, never, is_expired, partial_cmp, Duration, height_delta,
  time_delta, add_duration, add_durations,
}

-- An expiration that has ended at a block has ended at every block of no smaller height and time.
pub is_expired_stays :
    (e : Expiration) (now later : BlockInfo)
    → now.height ≤ later.height
    → now.time ≤ later.time
    → is_expired e now ≡ true
    → is_expired e later ≡ true
unfolding is_expired
is_expired_stays (at_height h) now later le le' x = ground arith
is_expired_stays (at_time t) now later le le' x = ground arith
is_expired_stays never now later le le' x = cc

-- Of two expirations that the order compares, the smaller one has ended wherever the larger has.
pub is_expired_antitone :
    (e e' : Expiration) (block : BlockInfo)
    → partial_cmp e e' ≡ some Ordering.lt
    → is_expired e' block ≡ true
    → is_expired e block ≡ true
unfolding is_expired partial_cmp
is_expired_antitone (at_height h) (at_height h') block c x = ground arith
is_expired_antitone (at_time t) (at_time t') block c x = ground arith
is_expired_antitone (at_height h) (at_time t) block c x = cc
is_expired_antitone (at_time t) (at_height h) block c x = cc
is_expired_antitone e never block c x = cc
is_expired_antitone never (at_height h) block c x = cc
is_expired_antitone never (at_time t) block c x = cc

-- `plus_seconds` adds: two steps are one step by the sum.
abbrev pub AddsSeconds : (Timestamp → ℕ → Option Timestamp) → Type 0
AddsSeconds plus_seconds =
    (t a b : ℕ) (u : Timestamp)
    → plus_seconds t a ≡ some u
    → plus_seconds u b ≡ plus_seconds t (a + b)

-- Where `plus_seconds` adds, and an expiration and a duration, and that duration and a second,
-- can be added, the expiration takes the two durations one after the other as it takes their sum.
pub add_duration-add_durations :
    (plus_seconds : Timestamp → ℕ → Option Timestamp) (e e1 : Expiration) (d d' sum : Duration)
    → AddsSeconds plus_seconds
    → add_duration plus_seconds e d ≡ ok e1
    → add_durations d d' ≡ ok sum
    → add_duration plus_seconds e1 d' ≡ add_duration plus_seconds e sum
unfolding add_duration add_durations
add_duration-add_durations plus_seconds (at_height h) e1 (height_delta a) (height_delta b) sum adds
      x y =
    ground arith
add_duration-add_durations plus_seconds (at_height h) e1 (height_delta a) (time_delta b) sum adds x
      y =
    cc
add_duration-add_durations plus_seconds (at_height h) e1 (time_delta a) d' sum adds x y = cc
add_duration-add_durations plus_seconds (at_time t) e1 (time_delta a) (time_delta b) sum adds x y =
    elim (Option-cases (plus_seconds t a)) [
      | inl fails ↦ absurd (ground arith)
      | inr (u, same) ↦ let next = adds t a b u same in ground (arith, next, same)
    ]
add_duration-add_durations plus_seconds (at_time t) e1 (time_delta a) (height_delta b) sum adds x
      y =
    cc
add_duration-add_durations plus_seconds (at_time t) e1 (height_delta a) d' sum adds x y = cc
add_duration-add_durations plus_seconds never e1 d d' sum adds x y = ground arith
