-- ===== src/Demurrage.antt =====
-- The arithmetic of src/contract.rs: the decay and growth loops, the conversion to base amounts,
-- and the share of the supply that goes to the sink. All of it is u128 with overflow checks.
pub mod Decay
pub mod BaseAmount
pub mod Compounding
pub mod Growth
use demurrage_token.Base.{ℕ, zero, suc, ◌+◌, ◌-◌, ◌*◌, ◌/◌, ◌^◌, ◌==◌, if◌then◌else◌}
use demurrage_token.Outcome.{Outcome, ok, ◌>>=◌}
use demurrage_token.Outcome.Word.{add128, mul128, sub_word, div_word}
use demurrage_token.State.{ContractError}

abbrev pub nano_divider : ℕ
nano_divider = 10 ^ 17

abbrev pub growth_resolution_factor : ℕ
growth_resolution_factor = 10 ^ 11

abbrev pub resolution_factor : ℕ
resolution_factor = nano_divider * growth_resolution_factor

-- A value of u128, or a panic.
abbrev pub Checked : Type 0
Checked = Outcome ContractError ℕ

-- One round of the loop of `grow_by`.
unfoldable pub grow_step : ℕ → ℕ → Checked
grow_step truncated_tax_level value_factor = do
  tax ← mul128 value_factor truncated_tax_level
  add128 value_factor (tax / growth_resolution_factor)

-- `for n in 1..period` with `rounds` rounds left.
unfoldable pub grow_loop : ℕ → ℕ → ℕ → Checked
grow_loop zero truncated_tax_level value_factor = ok value_factor
grow_loop (suc rounds) truncated_tax_level value_factor =
    grow_step truncated_tax_level value_factor >>= grow_loop rounds truncated_tax_level

-- The range `1..period` has `period - 1` members, and none at 0.
unfoldable pub grow_by : ℕ → ℕ → ℕ → Checked
grow_by value tax_level period = do
  value_factor ← grow_loop (period - 1) (tax_level / nano_divider) growth_resolution_factor
  grown ← mul128 value_factor value
  ok (grown / growth_resolution_factor)

unfoldable pub decay_step : ℕ → ℕ → Checked
decay_step truncated_tax_level value_factor = do
  tax ← mul128 value_factor truncated_tax_level
  sub_word value_factor (tax / growth_resolution_factor)

unfoldable pub decay_loop : ℕ → ℕ → ℕ → Checked
decay_loop zero truncated_tax_level value_factor = ok value_factor
decay_loop (suc rounds) truncated_tax_level value_factor =
    decay_step truncated_tax_level value_factor >>= decay_loop rounds truncated_tax_level

unfoldable pub decay_by : ℕ → ℕ → ℕ → Checked
decay_by value tax_level period = do
  value_factor ← decay_loop (period - 1) (tax_level / nano_divider) growth_resolution_factor
  decayed ← mul128 value_factor value
  ok (decayed / growth_resolution_factor)

-- The expression is computed twice in the source, first for a print, with the same panics.
unfoldable pub to_base_amount : ℕ → ℕ → Checked
to_base_amount value demurrage_amount = do
  scaled ← mul128 value resolution_factor
  modifier ← mul128 demurrage_amount 100000
  div_word scaled modifier

-- The arithmetic of `get_distribution`.
unfoldable pub distribution_of : ℕ → ℕ → Checked
distribution_of total_supply demurrage_amount = do
  modifier ← mul128 demurrage_amount 100000
  taxed ← sub_word resolution_factor modifier
  difference ← mul128 total_supply taxed
  ok (difference / resolution_factor)
