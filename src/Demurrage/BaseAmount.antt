-- ===== src/Demurrage/BaseAmount.antt =====
-- `to_base_amount` and the arithmetic of `get_distribution` in src/contract.rs.
use native.Mathlib.Nat.{mul-le-mul_left, lt_of_mul-lt-mul_right, sub-le}
use demurrage_token.Base.{ℕ, suc, ◌+◌, ◌-◌, ◌*◌, ◌/◌, ◌^◌, ◌≤◌, ◌<◌, ◌≡◌, ap, arith, ◌⊎◌}
use demurrage_token.Outcome.{ok, panic}
use demurrage_token.Outcome.Word.{mod128}
use demurrage_token.Demurrage.{resolution_factor, to_base_amount, distribution_of}

-- The modifier at which a base amount and an amount are the same.
abbrev pub full_amount : ℕ
full_amount = 10 ^ 23

div_floor : (x m : ℕ) → 0 < m → (x / m * m ≤ x) × (x < suc (x / m) * m)
div_floor x m h = grind arith

-- If the modifier is not zero and the two products fit in a u128, the conversion returns the
-- quotient `value * resolution_factor / (modifier * 100000)` rounded down.
pub to_base_amount_lem :
    (value modifier : ℕ)
    → 0 < modifier
    → value * resolution_factor < mod128
    → modifier * 100000 < mod128
    → (r : ℕ) × (to_base_amount value modifier ≡ ok r)
      × (r * (modifier * 100000) ≤ value * resolution_factor)
      × (value * resolution_factor < suc r * (modifier * 100000))
unfolding to_base_amount
to_base_amount_lem value modifier pos fit fit' =
    let d = div_floor (value * resolution_factor) (modifier * 100000) (omega arith) in
    (value * resolution_factor / (modifier * 100000), ground arith, d.0, d.1)

-- The same with the quotient written out.
pub to_base_amount_quotient :
    (value modifier : ℕ)
    → 0 < modifier
    → value * resolution_factor < mod128
    → modifier * 100000 < mod128
    → to_base_amount value modifier ≡ ok (value * resolution_factor / (modifier * 100000))
unfolding to_base_amount
to_base_amount_quotient value modifier pos fit fit' = ground arith

-- If the modifier is zero, or one of the two products does not fit in a u128, the conversion
-- panics.
pub to_base_amount_panics :
    (value modifier : ℕ)
    → (modifier ≡ 0) ⊎ (mod128 ≤ value * resolution_factor) ⊎ (mod128 ≤ modifier * 100000)
    → to_base_amount value modifier ≡ panic
unfolding to_base_amount
to_base_amount_panics value modifier h = ground arith

pub to_base_amount-eq-ok :
    (value modifier : ℕ) {r : ℕ}
    → to_base_amount value modifier ≡ ok r
    → (0 < modifier) × (value * resolution_factor < mod128) × (modifier * 100000 < mod128)
unfolding to_base_amount
to_base_amount-eq-ok value modifier h = ground arith

-- At the modifier of a new contract an amount is its own base amount.
pub to_base_amount_full :
    (value : ℕ) → value * resolution_factor < mod128 → to_base_amount value full_amount ≡ ok value
unfolding to_base_amount
to_base_amount_full value h = ground arith

lt_of_scaled : (a b k : ℕ) → a * k < suc b * k → a ≤ b
lt_of_scaled a b k h = let l : a < suc b = lt_of_mul-lt-mul_right k h in omega arith

pub to_base_amount_floor :
    (value modifier : ℕ) {r : ℕ}
    → to_base_amount value modifier ≡ ok r
    → (r * (modifier * 100000) ≤ value * resolution_factor)
      × (value * resolution_factor < suc r * (modifier * 100000))
to_base_amount_floor value modifier h =
    let (pos, fit, fit') = to_base_amount-eq-ok value modifier h in
    let (q, e, lower, upper) = to_base_amount_lem value modifier pos fit fit' in ground arith

-- A modifier that has decayed makes the base amount larger: of two conversions of the same value
-- that succeed, the one at the smaller modifier has a result at least as large.
pub to_base_amount_antitone :
    (value smaller larger : ℕ) {r r' : ℕ}
    → smaller ≤ larger
    → to_base_amount value smaller ≡ ok r
    → to_base_amount value larger ≡ ok r'
    → r' ≤ r
to_base_amount_antitone value smaller larger {r} {r'} le h h' =
    let a = to_base_amount_floor value smaller h in
    let b = to_base_amount_floor value larger h' in
    let c = mul-le-mul_left r' le in
    let d : r' * (smaller * 100000) < suc r * (smaller * 100000) = omega arith in
    lt_of_scaled r' r (smaller * 100000) d

-- At a modifier up to the initial one the result is at least the value.
pub to_base_amount_inflates :
    (value modifier : ℕ) {r : ℕ}
    → modifier ≤ full_amount
    → to_base_amount value modifier ≡ ok r
    → value ≤ r
to_base_amount_inflates value modifier le h =
    to_base_amount_antitone value modifier full_amount le h
      (to_base_amount_full value (to_base_amount-eq-ok value modifier h).1)

distribution_of-eq-ok :
    (supply modifier : ℕ) {r : ℕ}
    → distribution_of supply modifier ≡ ok r
    → (modifier * 100000 ≤ resolution_factor)
      × (r ≡ supply * (resolution_factor - modifier * 100000) / resolution_factor)
unfolding distribution_of
distribution_of-eq-ok supply modifier h = ground arith

-- The share of the sink is never more than the supply.
pub distribution_of-le :
    (supply modifier : ℕ) {r : ℕ} → distribution_of supply modifier ≡ ok r → r ≤ supply
distribution_of-le supply modifier {r} h =
    let (le, e) = distribution_of-eq-ok supply modifier h in
    let k =
      mul-le-mul_left {n = resolution_factor} supply
        (sub-le resolution_factor (modifier * 100000)) in
    omega arith

-- With a modifier of at most the initial one, and a supply whose product with the resolution fits
-- in a u128, the share is computed, and it and what the modifier leaves of the supply add up to
-- the supply, up to one unit of rounding.
pub distribution_of_total :
    (supply modifier : ℕ)
    → modifier ≤ full_amount
    → supply * resolution_factor < mod128
    → (r : ℕ) × (distribution_of supply modifier ≡ ok r)
      × (r * resolution_factor + supply * (modifier * 100000) ≤ supply * resolution_factor)
      × (supply * resolution_factor < suc r * resolution_factor + supply * (modifier * 100000))
unfolding distribution_of
distribution_of_total supply modifier le fit =
    let split : resolution_factor - modifier * 100000 + modifier * 100000 ≡ resolution_factor =
      omega arith in
    let parts = ap (λ (x : ℕ). supply * x) split in
    (
      supply * (resolution_factor - modifier * 100000) / resolution_factor,
      ground arith,
      ground arith,
      ground arith,
    )
