-- ===== src/Demurrage/Decay.antt =====
-- The decay loop of `decay_by` in src/contract.rs: bounds, and when it returns.
use demurrage_token.Base.{ℕ, zero, suc, ◌-◌, ◌*◌, ◌/◌, ◌≤◌, ◌<◌, ◌≡◌, refl, arith}
use demurrage_token.Outcome.{ok, >>=-eq-ok}
use demurrage_token.Outcome.Word.{mod128}
use demurrage_token.Demurrage.{
  growth_resolution_factor, nano_divider, resolution_factor, decay_step, decay_loop, decay_by,
}

decay_step-le : (t f : ℕ) {r : ℕ} → decay_step t f ≡ ok r → r ≤ f
unfolding decay_step
decay_step-le t f h = ground arith

pub decay_loop-le : (n t f : ℕ) {r : ℕ} → decay_loop n t f ≡ ok r → r ≤ f
unfolding decay_loop
decay_loop-le zero t f h = ground arith
decay_loop-le (suc n) t f h =
    let (g, e, k) = >>=-eq-ok (decay_step t f) (decay_loop n t) h in
    omega (arith, decay_step-le t f e, decay_loop-le n t g k)

-- A factor of at most one, in units of `growth_resolution_factor`, scales a value down.
pub scaled-le : (f v : ℕ) → f ≤ growth_resolution_factor → f * v / growth_resolution_factor ≤ v
scaled-le f v h = let k : f * v ≤ growth_resolution_factor * v = grind arith in omega arith

-- Demurrage never increases a value.
pub decay_by-le :
    (value tax_level period : ℕ) {r : ℕ} → decay_by value tax_level period ≡ ok r → r ≤ value
unfolding decay_by
decay_by-le value tax_level period h =
    let (f, e, k) =
      >>=-eq-ok (decay_loop (period - 1) (tax_level / nano_divider) growth_resolution_factor)
        (λ f. _) h in
    ground (
      arith,
      scaled-le f value
          (decay_loop-le (period - 1) (tax_level / nano_divider) growth_resolution_factor e),
    )

-- With a rate of at most one the loop returns, whatever the number of rounds.
decay_step_total :
    (t f : ℕ)
    → t ≤ growth_resolution_factor
    → f ≤ growth_resolution_factor
    → (r : ℕ) × (decay_step t f ≡ ok r) × (r ≤ f)
unfolding decay_step
decay_step_total t f ht hf =
    let k : f * t ≤ growth_resolution_factor * f = grind arith in
    (f - f * t / growth_resolution_factor, ground arith, ground arith)

pub decay_loop_total :
    (n t f : ℕ)
    → t ≤ growth_resolution_factor
    → f ≤ growth_resolution_factor
    → (r : ℕ) × (decay_loop n t f ≡ ok r) × (r ≤ f)
unfolding decay_loop
decay_loop_total zero t f ht hf = (f, refl, omega arith)
decay_loop_total (suc n) t f ht hf =
    let (g, e, k) = decay_step_total t f ht hf in
    let (r, e', k') = decay_loop_total n t g ht (omega arith) in (r, rw e e', omega arith)

-- With a rate of at most one and a value whose product with the resolution fits in a u128,
-- `decay_by` returns, for every number of periods, a value that is not larger.
pub decay_by_total :
    (value tax_level period : ℕ)
    → tax_level ≤ resolution_factor
    → value * growth_resolution_factor < mod128
    → (r : ℕ) × (decay_by value tax_level period ≡ ok r) × (r ≤ value)
unfolding decay_by
decay_by_total value tax_level period ht hv =
    let t = tax_level / nano_divider in
    let (f, e, k) =
      decay_loop_total (period - 1) t growth_resolution_factor (omega arith) (omega arith) in
    let m : f * value ≤ growth_resolution_factor * value = grind arith in
    (f * value / growth_resolution_factor, rw e (ground arith), scaled-le f value k)

-- A first period is free: with one period, as with none, a value whose product with the
-- resolution fits in a u128 stays as it was.
pub decay_by_first_period :
    (value tax_level period : ℕ)
    → period ≤ 1
    → value * growth_resolution_factor < mod128
    → decay_by value tax_level period ≡ ok value
unfolding decay_by decay_loop
decay_by_first_period value tax_level zero h hv = ground arith
decay_by_first_period value tax_level (suc zero) h hv = ground arith
decay_by_first_period value tax_level (suc (suc n)) h hv = absurd (omega arith)
