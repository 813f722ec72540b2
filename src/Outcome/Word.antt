-- ===== src/Outcome/Word.antt =====
-- Rust's u128, u64 and u32 with overflow checks. `Uint128` of cosmwasm_std is a wrapper of u128
-- whose `+` panics on overflow and whose `checked_sub` returns an error below zero.
use demurrage_token.Base.{ℕ, ◌+◌, ◌-◌, ◌*◌, ◌/◌, ◌^◌, ltb, leb, ◌==◌, if◌then◌else◌}
use demurrage_token.Outcome.{Outcome, ok, panic}

abbrev pub mod128 : ℕ
mod128 = 2 ^ 128

abbrev pub mod64 : ℕ
mod64 = 2 ^ 64

abbrev pub mod32 : ℕ
mod32 = 2 ^ 32

module _ {ℓ} {E : Type ℓ} where
  -- A value that must fit below `m`.
  abbrev pub fits : ℕ → ℕ → Outcome E ℕ
  fits m x = if ltb x m then ok x else panic

  abbrev pub add128 : ℕ → ℕ → Outcome E ℕ
  add128 a b = fits mod128 (a + b)

  abbrev pub mul128 : ℕ → ℕ → Outcome E ℕ
  mul128 a b = fits mod128 (a * b)

  abbrev pub add64 : ℕ → ℕ → Outcome E ℕ
  add64 a b = fits mod64 (a + b)

  abbrev pub mul64 : ℕ → ℕ → Outcome E ℕ
  mul64 a b = fits mod64 (a * b)

  -- The unsigned subtraction of any width.
  abbrev pub sub_word : ℕ → ℕ → Outcome E ℕ
  sub_word a b = if leb b a then ok (a - b) else panic

  -- The unsigned division of any width: it panics on a zero divisor.
  abbrev pub div_word : ℕ → ℕ → Outcome E ℕ
  div_word a b = if b == 0 then panic else ok (a / b)
