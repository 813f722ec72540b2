-- ===== src/Examples/Utils.antt =====
-- Durations, schedules, thresholds, payments, bounds and wallets.
use demurrage_token.Base.{
  bytes_eq, bytes_beq, ℕ, ◌+◌, ◌*◌, ◌^◌, ◌<◌, ◌≡◌, ◌↔◌, refl, arith, ltb, ◌==◌, Option, some, bytes,
  Bytes, [], ◌∷◌, All,
}
use demurrage_token.Outcome.{ok, panic}
use demurrage_token.Std.{Timestamp, Coin}
use demurrage_token.Balances.{checked_sub}
use demurrage_token.Ordered.{bytes_leb, insert_by, sort_by}
use demurrage_token.Expiration
use demurrage_token.Expiration.{
  Expiration, time_delta, height_delta, is_expired, add_duration, add_durations,
}
use demurrage_token.Expiration.Laws.{AddsSeconds, add_duration-add_durations}
use demurrage_token.Utils.Scheduled.{
  Scheduled, is_triggered, to_expiration, map_to_expiration, add_to_scheduled, Scheduled-Expiration,
}
use demurrage_token.Utils.Scheduled
use demurrage_token.Utils.Threshold.{
  Decimals, Threshold, threshold_quorum, validate, IsReachable, validate-IsReachable,
}
use demurrage_token.Utils.Payment.{must_pay, may_pay, must_pay_iff, may_pay-panic}
use demurrage_token.Utils.Pagination.{calc_range_start, from_bound, behind, calc_range_start_lem}
use demurrage_token.Utils.NativeBalance.{
  Coins, find, remove_at, set_amount_at, add_coin, add_coins, sub_coin, retain_nonzero, merge_into,
  merge_duplicates, normalize,
}
use demurrage_token.Utils.NativeBalance.Amounts.{
  share, amount_of, amount_of-add_coins, amount_of-sub_coin,
}
use demurrage_token.Utils.NativeBalance.Normal.{IsNormal, normalize-IsNormal}
use demurrage_token.Examples.{block_at}

-- Seconds that never overflow.
abbrev unbounded : Timestamp → ℕ → Option Timestamp
unbounded t n = some (t + n * 10 ^ 9)

unbounded_adds : AddsSeconds unbounded
unbounded_adds t a b u h = ground arith

two_durations :
    add_duration unbounded (Expiration.at_time (15 * 10 ^ 9)) (time_delta 20)
    ≡ add_duration unbounded (Expiration.at_time (5 * 10 ^ 9)) (time_delta 30)
unfolding add_duration add_durations
two_durations =
    add_duration-add_durations unbounded (Expiration.at_time (5 * 10 ^ 9))
      (Expiration.at_time (15 * 10 ^ 9)) (time_delta 10) (time_delta 20) (time_delta 30)
      unbounded_adds refl refl

abbrev at_ninety : Scheduled
at_ninety = Scheduled.at_height 90

abbrev at_a_hundred : Scheduled
at_a_hundred = Scheduled.at_height 100

schedule_as_expiration :
    (is_triggered at_ninety (block_at 0).block
      ≡ is_expired (to_expiration at_ninety) (block_at 0).block)
    × (map_to_expiration (add_to_scheduled unbounded at_ninety (height_delta 5))
        ≡ add_duration unbounded (to_expiration at_ninety) (height_delta 5))
    × (Scheduled.partial_cmp at_ninety at_a_hundred
        ≡ Expiration.partial_cmp (to_expiration at_ninety) (to_expiration at_a_hundred))
schedule_as_expiration =
    Scheduled-Expiration unbounded at_ninety at_a_hundred (height_delta 5) (block_at 0).block

-- Decimals as numbers of units.
abbrev units : Decimals ℕ
units = record {
  less = ltb;
  percent = λ n. n * 10 ^ 16;
  one = 10 ^ 18;
  is_zero = λ n. n == 0;
  atomics = λ n. n;
  less_lem = λ a b. refl;
  percent_lem = λ n. refl;
  one_lem = refl;
  is_zero_lem = λ n. refl;
}

abbrev half : Threshold ℕ
half = threshold_quorum (5 * 10 ^ 17) (4 * 10 ^ 17)

half_accepted : (validate units half 7 ≡ ok tt) ↔ IsReachable units half 7
half_accepted = validate-IsReachable units half 7

abbrev coin_a : Coin
coin_a = record { denom = bytes "ua"; amount = 5 }

abbrev coin_b : Coin
coin_b = record { denom = bytes "ub"; amount = 7 }

abbrev coin_zero : Coin
coin_zero = record { denom = bytes "uc"; amount = 0 }

one_coin_paid :
    (must_pay (coin_a ∷ []) (bytes "ua") ≡ ok 5) ↔ ((coin_a ∷ [] ≡ coin_a ∷ []) × (0 < 5))
one_coin_paid = must_pay_iff (coin_a ∷ []) (bytes "ua") 5

several_coins_panic :
    (may_pay (coin_a ∷ coin_a ∷ []) (bytes "ua") ≡ panic)
    ↔ ((1 < 2) × All (λ (c : Coin). c.denom ≡ bytes "ua") (coin_a ∷ coin_a ∷ []))
several_coins_panic = may_pay-panic (coin_a ∷ coin_a ∷ []) (bytes "ua")

start_of_bob :
    from_bound (calc_range_start (some (bytes "bob"))) (bytes "bobby")
    ≡ behind (some (bytes "bob")) (bytes "bobby")
start_of_bob = calc_range_start_lem (some (bytes "bob")) (bytes "bobby")

abbrev wallet : Coins
wallet = coin_b ∷ coin_zero ∷ coin_a ∷ coin_b ∷ []

abbrev normal_wallet : Coins
normal_wallet = coin_a ∷ record coin_b { amount = 14 } ∷ []

normalize-IsNormal_example :
    IsNormal normal_wallet × ((d : Bytes) → amount_of d normal_wallet ≡ amount_of d wallet)
unfolding normalize retain_nonzero sort_by insert_by bytes_leb merge_duplicates merge_into bytes_beq
normalize-IsNormal_example = normalize-IsNormal wallet refl

add_coins_sums :
    amount_of (bytes "ub") (coin_a ∷ record coin_b { amount = 21 } ∷ [])
    ≡ amount_of (bytes "ub") normal_wallet + amount_of (bytes "ub") (coin_b ∷ [])
unfolding add_coins add_coin find set_amount_at bytes_beq
add_coins_sums = amount_of-add_coins (bytes "ub") normal_wallet (coin_b ∷ []) refl

sub_coin_takes :
    amount_of (bytes "ua") (record coin_b { amount = 14 } ∷ []) + share (bytes "ua") coin_a
    ≡ amount_of (bytes "ua") normal_wallet
unfolding sub_coin find remove_at checked_sub bytes_beq
sub_coin_takes = amount_of-sub_coin (bytes "ua") normal_wallet coin_a refl
