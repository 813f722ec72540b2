-- ===== src/Demurrage/Growth.antt =====
-- `grow_by` of src/contract.rs, whose result `change_period` drops: its panics are what is left.
use demurrage_token.Base.{ℕ, zero, suc, ◌+◌, ◌-◌, ◌*◌, ◌/◌, ◌≤◌, ◌≡◌, refl, arith, inl, inr}
use demurrage_token.Outcome.{ok, panic, ◌>>=◌, Outcome-cases}
use demurrage_token.Outcome.Word.{mul128}
use demurrage_token.Demurrage.{
  Checked, growth_resolution_factor, nano_divider, grow_step, grow_loop, grow_by,
}

grow_step-ge : (t f : ℕ) {r : ℕ} → grow_step t f ≡ ok r → f ≤ r
unfolding grow_step
grow_step-ge t f h = ground arith

-- One round more is a round on what the others end at.
grow_loop-suc : (n t f : ℕ) → grow_loop (suc n) t f ≡ (grow_loop n t f >>= grow_step t)
unfolding grow_loop
grow_loop-suc zero t f = elim (Outcome-cases (grow_step t f)) [
  | inl (a, e) ↦ rw e refl
  | inr (inl (x, e)) ↦ rw e refl
  | inr (inr e) ↦ rw e refl
]
grow_loop-suc (suc n) t f = elim (Outcome-cases (grow_step t f)) [
  | inl (a, e) ↦ rw e (grow_loop-suc n t a)
  | inr (inl (x, e)) ↦ rw e refl
  | inr (inr e) ↦ rw e refl
]

module _ (value t : ℕ) where
  -- What follows the loop.
  abbrev scaled : ℕ → Checked
  scaled f = mul128 f value >>= λ grown. ok (grown / growth_resolution_factor)

  abbrev rounds : ℕ → Checked
  rounds n = grow_loop n t growth_resolution_factor >>= scaled

  -- A larger factor overflows where a smaller one does.
  scaled-panic : (f f' : ℕ) → f ≤ f' → scaled f ≡ panic → scaled f' ≡ panic
  scaled-panic f f' le h = let k : f * value ≤ f' * value = grind arith in ground arith

  rounds_panic-suc : (n : ℕ) → rounds n ≡ panic → rounds (suc n) ≡ panic
  rounds_panic-suc n h =
      let next = grow_loop-suc n t growth_resolution_factor in
      rw next (elim (Outcome-cases (grow_loop n t growth_resolution_factor)) [
        | inl (f, e) ↦
            let over : scaled f ≡ panic = rw e at h in
            rw e (elim (Outcome-cases (grow_step t f)) [
              | inl (f', e') ↦ rw e' (scaled-panic f f' (grow_step-ge t f e') over)
              | inr (inl (x, e')) ↦ absurd (unfold grow_step in ground arith)
              | inr (inr e') ↦ rw e' refl
            ])
        | inr (inl (x, e)) ↦ absurd (ground arith)
        | inr (inr e) ↦ rw e refl
      ])

  rounds_panic-add : (k n : ℕ) → rounds n ≡ panic → rounds (k + n) ≡ panic
  rounds_panic-add zero n h = let e : 0 + n ≡ n = omega arith in rw e h
  rounds_panic-add (suc k) n h =
      let e : suc k + n ≡ suc (k + n) = omega arith in
      rw e (rounds_panic-suc (k + n) (rounds_panic-add k n h))

-- Where the growth over a number of periods panics, it panics over every larger number of them.
pub grow_by_panics :
    (value tax_level period later : ℕ)
    → period ≤ later
    → grow_by value tax_level period ≡ panic
    → grow_by value tax_level later ≡ panic
unfolding grow_by
grow_by_panics value tax_level period later le h =
    let n = period - 1 in
    let k = later - 1 - n in
    let same : k + n ≡ later - 1 = omega arith in
    rw (← same) (rounds_panic-add value (tax_level / nano_divider) k n h)

-- A growth loop that panics panics with more rounds too.
pub grow_loop_panics : (k n t f : ℕ) → grow_loop n t f ≡ panic → grow_loop (k + n) t f ≡ panic
grow_loop_panics zero n t f h = let e : 0 + n ≡ n = omega arith in rw e h
grow_loop_panics (suc k) n t f h =
    let e : suc k + n ≡ suc (k + n) = omega arith in
    rw (e, grow_loop-suc (k + n) t f, grow_loop_panics k n t f h) refl
