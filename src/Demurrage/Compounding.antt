-- ===== src/Demurrage/Compounding.antt =====
-- The decay loop of src/contract.rs against exact compounding: after `n` rounds at the rate
-- `t / g` the factor is the exact `f * (1 - t/g) ^ n`, rounded up by less than one unit a round.
use native.Mathlib.Nat.{mul-le-mul_left, one-le-pow, pow-le-pow_left, pow-suc, pow-zero}
use demurrage_token.Base.{ℕ, zero, suc, ◌+◌, ◌-◌, ◌*◌, ◌/◌, ◌^◌, ◌≤◌, ◌<◌, ◌≡◌, ap, arith}
use demurrage_token.Outcome.{ok, >>=-eq-ok}
use demurrage_token.Demurrage.{
  growth_resolution_factor, resolution_factor, nano_divider, decay_step, decay_loop, decay_by,
}

rate_split : (g t f : ℕ) → t ≤ g → (g - t) * f + f * t ≡ g * f
rate_split g t f h = let e : g - t + t ≡ g = omega arith in omega (arith, ap (λ (x : ℕ). x * f) e)

-- A round keeps `d` parts in `g`, up to a rounding of less than one.
decay_step_bounds :
    (t f : ℕ) {r : ℕ}
    → t ≤ growth_resolution_factor
    → decay_step t f ≡ ok r
    → let d = growth_resolution_factor - t in
      (d * f ≤ growth_resolution_factor * r)
      × (growth_resolution_factor * r ≤ d * f + growth_resolution_factor)
unfolding decay_step
decay_step_bounds t f h e = ground (arith, rate_split growth_resolution_factor t f h)

module _ (d g f f' r n : ℕ) where
  chain_lower : d * f ≤ g * f' → d ^ n * f' ≤ r * g ^ n → d ^ suc n * f ≤ r * g ^ suc n
  chain_lower h k =
      rw (pow-suc d n, pow-suc g n) (omega (arith, mul-le-mul_left (d ^ n) h, mul-le-mul_left g k))

  chain_upper :
      d ≤ g
      → g * f' ≤ d * f + g
      → r * g ^ n ≤ d ^ n * f' + n * g ^ n
      → r * g ^ suc n ≤ d ^ suc n * f + suc n * g ^ suc n
  chain_upper le h k =
      rw (pow-suc d n, pow-suc g n)
        (omega (
          arith,
          mul-le-mul_left (d ^ n) h,
          mul-le-mul_left g k,
          mul-le-mul_left g (pow-le-pow_left le n),
        ))

-- `n` rounds from the factor `f` end at `r`, which lies between the exact value and `n` units
-- above it; both sides are multiplied by `g ^ n`.
pub decay_loop_bounds :
    (n t f : ℕ) {r : ℕ}
    → t ≤ growth_resolution_factor
    → decay_loop n t f ≡ ok r
    → let g = growth_resolution_factor in
      ((g - t) ^ n * f ≤ r * g ^ n) × (r * g ^ n ≤ (g - t) ^ n * f + n * g ^ n)
unfolding decay_loop
decay_loop_bounds zero t f h e =
    ground (arith, pow-zero (growth_resolution_factor - t), pow-zero growth_resolution_factor)
decay_loop_bounds (suc n) t f {r} h e =
    let (f', e', k) = >>=-eq-ok (decay_step t f) (decay_loop n t) e in
    let g = growth_resolution_factor in
    let s = decay_step_bounds t f h e' in
    let ih = decay_loop_bounds n t f' h k in
    (chain_lower (g - t) g f f' r n s.0 ih.0, chain_upper (g - t) g f f' r n (omega arith) s.1 ih.1)

module _ (v f r g P Q n : ℕ) where
  -- From the factor to the value that it scales: `r` is `f * v / g` rounded down.
  scale_lower : 0 < Q → P * g ≤ f * Q → f * v < suc r * g → P * v * g < suc r * (g * Q)
  scale_lower pos h k = omega (arith, mul-le-mul_left v h, mul-le-mul_left Q k)

  scale_upper : f * Q ≤ P * g + n * Q → r * g ≤ f * v → r * (g * Q) ≤ v * (P * g + n * Q)
  scale_upper h k = omega (arith, mul-le-mul_left v h, mul-le-mul_left Q k)

-- At a tax level of at most one, the value that `decay_by` returns for `period` periods is the
-- value compounded exactly over `period - 1` rounds, `value * (1 - t/g) ^ (period - 1)` for the
-- rate `t` in units of `1/g`, with an error of less than one unit downwards and at most
-- `value * (period - 1) / g` upwards. Both sides are multiplied by `g * g ^ (period - 1)`.
pub decay_by_compounds :
    (value tax_level period : ℕ) {r : ℕ}
    → tax_level ≤ resolution_factor
    → decay_by value tax_level period ≡ ok r
    → let g = growth_resolution_factor in
      let n = period - 1 in
      let exact = (g - tax_level / nano_divider) ^ n in
      (exact * value * g < suc r * (g * g ^ n))
      × (r * (g * g ^ n) ≤ value * (exact * g + n * g ^ n))
unfolding decay_by
decay_by_compounds value tax_level period {r} h e =
    let g = growth_resolution_factor in
    let n = period - 1 in
    let t = tax_level / nano_divider in
    let (f, e', k) = >>=-eq-ok (decay_loop n t g) (λ f. _) e in
    let b = decay_loop_bounds n t g {r = f} (omega arith) e' in
    let floor : (r * g ≤ f * value) × (f * value < suc r * g) = ground arith in
    (
      scale_lower value f r g ((g - t) ^ n) (g ^ n) n (one-le-pow n g (omega arith)) b.0 floor.1,
      scale_upper value f r g ((g - t) ^ n) (g ^ n) n b.1 floor.0,
    )
