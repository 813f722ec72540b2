-- ===== src/Allowances/Deduct.antt =====
-- `deduct_allowance` of src/contract.rs and src/allowances.rs, on every branch.
use demurrage_token.Base.{
  bytes_eq, pair_eq, ℕ, ◌-◌, ◌≤◌, ◌≡◌, arith, if◌then◌else◌, leb, false, Option, some, none,
  Option-cases, inl, inr,
}
use demurrage_token.Outcome.{ok, err}
use demurrage_token.Std.{Addr, BlockInfo, overflow}
use demurrage_token.Expiration.{is_expired}
use demurrage_token.Cw20.{AllowanceResponse}
use demurrage_token.State.{Store, std, expired, no_allowance}
use demurrage_token.Storage.{may_load, save}
use demurrage_token.Balances.{checked_sub}
use demurrage_token.Allowances.{deduct_allowance, deducted}

-- The storage with the allowance of a pair of accounts written.
abbrev pub set_allowance : Addr × Addr → AllowanceResponse → Store → Store
set_allowance key a s = record s { allowances = save key a s.allowances }

abbrev pub allowance_at : Addr × Addr → Store → Option AllowanceResponse
allowance_at key s = may_load key s.allowances

-- A deduction that succeeded: `before` was there, had not ended, and was enough.
pub record Deduction (owner spender : Addr) (block : BlockInfo) (amount : ℕ) (s s' : Store)
    : Type 0 where
  pub before : AllowanceResponse
  pub found : allowance_at (owner, spender) s ≡ some before
  pub live : is_expired before.expires block ≡ false
  pub enough : amount ≤ before.allowance
  pub result :
      s'
      ≡ set_allowance (owner, spender) (record before { allowance = before.allowance - amount }) s

module _ (owner spender : Addr) (block : BlockInfo) (amount : ℕ) (s : Store) where
  pub deduct_allowance-eq-ok :
      {r : AllowanceResponse} {s' : Store}
      → deduct_allowance owner spender block amount s ≡ (ok r, s')
      → Deduction owner spender block amount s s'
  unfolding deduct_allowance deducted checked_sub
  deduct_allowance-eq-ok {r} {s'} h = elim (Option-cases (allowance_at (owner, spender) s)) [
    | inl missing ↦ absurd (ground arith)
    | inr (a, e) ↦ record {
      before = a;
      found = e;
      live = ground arith;
      enough = ground arith;
      result = ground arith;
    }
  ]

  -- Without an allowance, after it has ended, and beyond what is left, the call fails with its
  -- own error and writes nothing; in every other case it lowers the allowance by the amount.
  pub deduct_allowance_lem :
      deduct_allowance owner spender block amount s ≡ elim (allowance_at (owner, spender) s) [
        | none ↦ (err no_allowance, s)
        | some a ↦
            if is_expired a.expires block
            then (err expired, s)
            else if leb amount a.allowance
            then (
              ok (record a { allowance = a.allowance - amount }),
              set_allowance (owner, spender) (record a { allowance = a.allowance - amount }) s,
            )
            else (err (std (overflow a.allowance amount)), s)
      ]
  unfolding deduct_allowance deducted checked_sub
  deduct_allowance_lem = ground arith
