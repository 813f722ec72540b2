-- ===== src/Payments/Returns.antt =====
-- `execute_transfer` and `execute_transfer_from` of src/contract.rs: when they return, and what it has done then.
use demurrage_token.Base.{
  leb, ◌==◌, if◌then◌else◌, Bool-cases, pair_eq, false, bytes_eq, bytes_iff, ℕ, ◌+◌, ◌*◌, ◌-◌, ◌/◌,
  ◌≤◌, ◌<◌, ◌≡◌, arith, ap, true, some, inl, inr, Bytes, [], ◌∷◌,
}
use demurrage_token.Outcome.{ok, err}
use demurrage_token.Outcome.Word.{mod128}
use demurrage_token.Std.{
  overflow, Addr, Env, MessageInfo, Response, response, attr, word, text, amount_of,
}
use demurrage_token.Chain.{Chain}
use demurrage_token.State.{State, Store, std, invalid_zero_amount}
use demurrage_token.Storage.Sum.{value-le-total}
use demurrage_token.Balances.{balance_of, set_balance}
use demurrage_token.Balances.Laws.{
  debit_account_lem, credit_account_lem, balance_of-set_balance, total-set_balance,
}
use demurrage_token.Balances.Moves.{moved}
use demurrage_token.Demurrage.{resolution_factor, to_base_amount}
use demurrage_token.Demurrage.Decay.{decay_by-le}
use demurrage_token.Demurrage.BaseAmount.{to_base_amount_quotient}
use demurrage_token.Period.{change_period}
use demurrage_token.Period.Decays.{with_state}
use demurrage_token.Period.Effects.{
  Taxed, sink_of, tax_of, tax_of-le, next_state, change_period-eq-ok,
}
use demurrage_token.Period.Returns.{Ready, change_period_returns}
use demurrage_token.Payments.Totals.{held, Taxed-frame}
use demurrage_token.Cw20.{AllowanceResponse}
use demurrage_token.Expiration.{is_expired}
use demurrage_token.Allowances.{deduct_allowance}
use demurrage_token.Allowances.Deduct.{allowance_at, set_allowance, deduct_allowance_lem}
use demurrage_token.Contract.{execute_transfer, execute_transfer_from}

-- A credit after a debit fits where all balances with it do.
credit_room :
    (from to : Addr) (amount base : ℕ) (s : Store)
    → amount ≤ balance_of s from
    → held s + base < mod128
    → balance_of (set_balance from (balance_of s from - amount) s) to + base < mod128
credit_room from to amount base s enough room =
    let s1 = set_balance from (balance_of s from - amount) s in
    let sum = total-set_balance from (balance_of s from - amount) s in
    let part = value-le-total to s1.balances in omega arith

-- The answer to a transfer.
abbrev pub transfer_response : Addr → Bytes → ℕ → Response
transfer_response sender recipient amount = response (
    attr "action" (word "transfer")
    ∷ attr "from" (text sender)
    ∷ attr "to" (text recipient)
    ∷ attr "amount" (amount_of amount)
    ∷ [])

module _ (chain : Chain) where
  -- The tax lowers no balance.
  pub balance_of-Taxed :
      (state : State) (tax : ℕ) (s s' : Store)
      → Taxed chain state tax s s'
      → (j : Addr) → balance_of s j ≤ balance_of s' j
  balance_of-Taxed state tax s s' (inl e) j = omega (arith, ap (λ (t : Store). balance_of t j) e)
  balance_of-Taxed state tax s s' (inr e) j =
      let sink = sink_of chain state in
      ground (arith, e, bytes_iff sink j, balance_of-set_balance sink j (balance_of s sink + tax) s)

  module _ (env : Env) (amount : ℕ) (s : Store) (state : State) (g : Ready chain env state s) where
    -- What an amount is converted to after the period.
    abbrev pub base_after : ℕ
    base_after = amount * resolution_factor / (g.later * 100000)

    -- A period that can be changed is changed, with a modifier at which the amount can be
    -- converted; no balance falls, and all balances together rise by at most the supply.
    pub period_changed :
        0 < g.later
        → amount * resolution_factor < mod128
        → let next = next_state state g.later in
          (paid : Store) × (change_period chain env state s ≡ (ok (inr true, next), paid))
          × Taxed chain next (tax_of next s) (with_state s next) paid
          × (to_base_amount amount g.later ≡ ok base_after)
          × ((j : Addr) → balance_of s j ≤ balance_of paid j)
          × (held paid ≤ held s + g.token.total_supply)
    period_changed pos fits =
        let next = next_state state g.later in
        let paid = (change_period chain env state s).1 in
        let run = change_period_returns chain env state s g in
        let taxed =
          (change_period-eq-ok chain env state s {r = (inr true, next)} {s' = paid} run).3 in
        let frame = Taxed-frame chain next (tax_of next s) (with_state s next) paid taxed in
        let tax = tax_of-le next s g.token g.stored_token in
        let low = decay_by-le state.demurrage_amount state.tax_level g.minutes g.decayed in
        (
          paid,
          run,
          taxed,
          to_base_amount_quotient amount g.later pos fits (omega (arith, low, g.low)),
          balance_of-Taxed next (tax_of next s) (with_state s next) paid taxed,
          omega arith,
        )

  -- Where a period can be changed, and the modifier has not decayed to zero, a transfer to a valid
  -- address of an amount that is not too large for the conversion never panics, if all balances with
  -- the tax and the base amount fit in a u128: the new period is saved and the tax is paid to the
  -- sink or to nobody; then an amount of 0 and one above what the sender holds are refused, each with
  -- its own error and nothing more written, and in every other case the transfer returns, the amount
  -- has left the sender, and its base amount at the decayed modifier has arrived at the recipient.
  pub execute_transfer_branches :
      (env : Env) (info : MessageInfo) (recipient : Bytes) (amount : ℕ) (s : Store) (state : State)
      (to : Addr) (g : Ready chain env state s)
      → s.demurrage_state ≡ some state
      → chain.addr_validate recipient ≡ ok to
      → 0 < g.later
      → amount * resolution_factor < mod128
      → held s + g.token.total_supply + amount * resolution_factor / (g.later * 100000) < mod128
      → let next = next_state state g.later in
        (paid : Store) × Taxed chain next (tax_of next s) (with_state s next) paid
        × (execute_transfer chain env info recipient amount s ≡ (
            if amount == 0
            then (err invalid_zero_amount, paid)
            else if leb amount (balance_of paid info.sender)
            then (
              ok (transfer_response info.sender recipient amount),
              moved info.sender to amount (amount * resolution_factor / (g.later * 100000)) paid,
            )
            else (err (std (overflow (balance_of paid info.sender) amount)), paid)))
  unfolding execute_transfer
  execute_transfer_branches env info recipient amount s state to g stored valid pos fits room =
      let base = base_after env amount s state g in
      let (paid, run, taxed, converted, more, sum) = period_changed env amount s state g pos fits in
      let d = debit_account_lem info.sender amount paid in
      let s1 = set_balance info.sender (balance_of paid info.sender - amount) paid in
      let k = credit_account_lem to base s1 in
      (
        paid,
        taxed,
        elim (Bool-cases (leb amount (balance_of paid info.sender))) [
          | inl enough ↦
              let fit = credit_room info.sender to amount base paid (ground arith) (omega arith) in
              ground (arith, stored, run, converted, valid, d, k, fit)
          | inr less ↦ ground (arith, stored, run, converted, valid, d)
        ],
      )

  -- Where a period can be changed after the allowance was lowered, and the modifier has not decayed
  -- to zero, a transfer out of the account of an owner who holds the amount, by a sender with an
  -- allowance that has not ended and covers it, to a valid address, of an amount that is not too
  -- large for the conversion, returns, if all balances with the tax and the base amount fit in a
  -- u128: the allowance is lowered by the amount, the new period is saved, the tax is paid to the
  -- sink or to nobody, and then the amount leaves the owner and its base amount at the decayed
  -- modifier arrives at the recipient.
  pub execute_transfer_from_returns :
      (env : Env) (info : MessageInfo) (owner recipient : Bytes) (amount : ℕ) (s : Store)
      (state : State) (from to : Addr) (allowance : AllowanceResponse)
      → let s0 =
          set_allowance
            (from, info.sender)
            (record allowance { allowance = allowance.allowance - amount })
            s in
        (g : Ready chain env state s0)
        → s.demurrage_state ≡ some state
        → chain.addr_validate owner ≡ ok from
        → chain.addr_validate recipient ≡ ok to
        → allowance_at (from, info.sender) s ≡ some allowance
        → is_expired allowance.expires env.block ≡ false
        → amount ≤ allowance.allowance
        → 0 < g.later
        → amount * resolution_factor < mod128
        → amount ≤ balance_of s from
        → held s + g.token.total_supply + amount * resolution_factor / (g.later * 100000) < mod128
        → let next = next_state state g.later in
          (paid : Store) × Taxed chain next (tax_of next s0) (with_state s0 next) paid
          × (execute_transfer_from chain env info owner recipient amount s ≡ (
            ok (transfer_response owner recipient amount),
            moved from to amount (amount * resolution_factor / (g.later * 100000)) paid,
          ))
  unfolding execute_transfer_from
  execute_transfer_from_returns env info owner recipient amount s state from to allowance g stored
        valid valid' found live covers pos fits enough room =
      let s0 =
        set_allowance (from, info.sender)
          (record allowance { allowance = allowance.allowance - amount }) s in
      let base = base_after env amount s0 state g in
      let a = deduct_allowance_lem from info.sender env.block amount s in
      let deducted : deduct_allowance from info.sender env.block amount s
          ≡ (ok (record allowance { allowance = allowance.allowance - amount }), s0) =
        ground (arith, a, found, live) in
      let (paid, run, taxed, converted, more, sum) =
        period_changed env amount s0 state g pos fits in
      let held_more = more from in
      let d = debit_account_lem from amount paid in
      let s1 = set_balance from (balance_of paid from - amount) paid in
      let k = credit_account_lem to base s1 in
      let fit = credit_room from to amount base paid (omega arith) (omega arith) in
      (
        paid,
        taxed,
        ground (arith, deducted, stored, run, converted, valid, valid', d, k, fit, held_more),
      )
