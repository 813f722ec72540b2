-- ===== src/Examples/Arithmetic.antt =====
-- The arithmetic of demurrage at numbers of the source's tests.
use demurrage_token.Base.{ℕ, suc, ◌+◌, ◌-◌, ◌*◌, ◌/◌, ◌^◌, ◌≤◌, ◌<◌, ◌≡◌, refl, arith, inl}
use demurrage_token.Outcome.{ok, panic}
use demurrage_token.Demurrage.{
  grow_by, grow_loop, grow_step, growth_resolution_factor, resolution_factor, nano_divider,
  decay_loop, decay_step, decay_by, to_base_amount, distribution_of,
}
use demurrage_token.Demurrage.Decay.{decay_by_total, decay_by_first_period}
use demurrage_token.Demurrage.Growth.{grow_by_panics}
use demurrage_token.Demurrage.Compounding.{decay_by_compounds}
use demurrage_token.Demurrage.BaseAmount.{
  full_amount, to_base_amount_lem, to_base_amount_panics, to_base_amount_antitone,
  distribution_of_total,
}

abbrev test_tax : ℕ
test_tax = 501059083733730000

decay_ten_periods : decay_by full_amount test_tax 10 ≡ ok 99999999963000000000000
unfolding decay_by decay_loop decay_step
decay_ten_periods = refl

decay_by_total_example : (r : ℕ) × (decay_by full_amount test_tax 10 ≡ ok r) × (r ≤ full_amount)
decay_by_total_example = decay_by_total full_amount test_tax 10 (omega arith) (omega arith)

first_period_free : decay_by full_amount test_tax 1 ≡ ok full_amount
first_period_free = decay_by_first_period full_amount test_tax 1 (omega arith) (omega arith)

-- A rate of two hundredths a round, over five periods.
decay_five_periods : decay_by 1000 (2 * 10 ^ 26) 5 ≡ ok 922
unfolding decay_by decay_loop decay_step
decay_five_periods = refl

decay_by_compounds_example :
    let g = growth_resolution_factor in
    let exact = (g - 2 * 10 ^ 26 / nano_divider) ^ 4 in
    (exact * 1000 * g < suc 922 * (g * g ^ 4))
    × (922 * (g * g ^ 4) ≤ 1000 * (exact * g + 4 * g ^ 4))
decay_by_compounds_example =
    decay_by_compounds 1000 (2 * 10 ^ 26) 5 (omega arith) decay_five_periods

converted :
    (r : ℕ) × (to_base_amount 1000 (98 * 10 ^ 21) ≡ ok r)
    × (r * (98 * 10 ^ 21 * 100000) ≤ 1000 * resolution_factor)
    × (1000 * resolution_factor < suc r * (98 * 10 ^ 21 * 100000))
converted = to_base_amount_lem 1000 (98 * 10 ^ 21) (omega arith) (omega arith) (omega arith)

base_of_zero : to_base_amount 1000 0 ≡ panic
base_of_zero = to_base_amount_panics 1000 0 (inl refl)

base_decayed : to_base_amount 1000 (98 * 10 ^ 21) ≡ ok 1020
unfolding to_base_amount
base_decayed = refl

base_full : to_base_amount 1000 full_amount ≡ ok 1000
unfolding to_base_amount
base_full = refl

base_grows : 1000 ≤ 1020
base_grows =
    to_base_amount_antitone 1000 (98 * 10 ^ 21) full_amount (omega arith) base_decayed base_full

distribution_of_thousand :
    (r : ℕ) × (distribution_of 1000 (98 * 10 ^ 21) ≡ ok r)
    × (r * resolution_factor + 1000 * (98 * 10 ^ 21 * 100000) ≤ 1000 * resolution_factor)
    × (1000 * resolution_factor < suc r * resolution_factor + 1000 * (98 * 10 ^ 21 * 100000))
distribution_of_thousand = distribution_of_total 1000 (98 * 10 ^ 21) (omega arith) (omega arith)

-- At a fifth a round the growth of the initial modifier overflows after 60 rounds.
growth_overflows : grow_by full_amount (2 * 10 ^ 27) 61 ≡ panic
unfolding grow_by grow_loop grow_step
growth_overflows = refl

growth_panics : grow_by full_amount (2 * 10 ^ 27) 1000000 ≡ panic
growth_panics = grow_by_panics full_amount (2 * 10 ^ 27) 61 1000000 (omega arith) growth_overflows
