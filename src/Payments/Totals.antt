-- ===== src/Payments/Totals.antt =====
-- Payments and the sum of all balances: what a plain payment keeps, and what a payment with
-- demurrage adds.
use demurrage_token.Base.{Bytes, ℕ, ◌+◌, ◌≤◌, ◌≡◌, arith, ap, inl, inr, some}
use demurrage_token.Std.{Addr, Env}
use demurrage_token.Chain.{Chain}
use demurrage_token.State.{State, Store}
use demurrage_token.Storage.Sum.{total}
use demurrage_token.Balances.{balance_of}
use demurrage_token.Balances.Laws.{total-set_balance}
use demurrage_token.Balances.Moves.{total-moved}
use demurrage_token.Period.Decays.{with_state}
use demurrage_token.Period.Effects.{
  Taxed, sink_of, tax_of, next_state, HasBegun, change_period-eq-ok,
}
use demurrage_token.Payments.Demurred.{DemurredPayment}

-- The sum of all balances.
abbrev pub held : Store → ℕ
held s = total s.balances

module _ (chain : Chain) where
  -- The tax is new money: the sum grows by at most the tax, and nothing else is written.
  pub Taxed-frame :
      (state : State) (tax : ℕ) (s s' : Store)
      → Taxed chain state tax s s'
      → (s'.token_info ≡ s.token_info)
        × (s'.allowances ≡ s.allowances)
        × (s'.demurrage_state ≡ s.demurrage_state)
        × (held s ≤ held s')
        × (held s' ≤ held s + tax)
  Taxed-frame state tax s s' (inl e) = (
    ap (λ (t : Store). t.token_info) e,
    ap (λ (t : Store). t.allowances) e,
    ap (λ (t : Store). t.demurrage_state) e,
    omega (arith, ap held e),
    omega (arith, ap held e),
  )
  Taxed-frame state tax s s' (inr e) =
      let sum =
        total-set_balance (sink_of chain state) (balance_of s (sink_of chain state) + tax) s in
      (
        ap (λ (t : Store). t.token_info) e,
        ap (λ (t : Store). t.allowances) e,
        ap (λ (t : Store). t.demurrage_state) e,
        omega (arith, ap held e, sum),
        omega (arith, ap held e, sum),
      )

  -- A payment with demurrage, told by its parts: the period before it is over, one more is
  -- counted, and only the state and balances are written.
  pub DemurredPayment-frame :
      {recipient : Bytes} (env : Env) (from : Addr) (amount : ℕ) (s s' : Store)
      (run : DemurredPayment chain env from recipient amount s s')
      → (s'.token_info ≡ s.token_info)
        × (s'.allowances ≡ s.allowances)
        × (s'.demurrage_state ≡ some run.next)
        × (run.next ≡ next_state run.state run.next.demurrage_amount)
        × (run.next.demurrage_amount ≤ run.state.demurrage_amount)
        × HasBegun chain env run.state
  DemurredPayment-frame env from amount s s' run =
      let c =
        change_period-eq-ok chain env run.state s {r = (run.period.0, run.next)} run.period.1 in
      let f = Taxed-frame run.next (tax_of run.next s) (with_state s run.next) run.paid c.3 in
      (ground (arith, f.0), ground (arith, f.1), ground (arith, f.2), c.1, c.0, c.2)

  -- The sum of all balances loses the amount, and gains its base amount and at most the tax.
  pub DemurredPayment-held :
      {recipient : Bytes} (env : Env) (from : Addr) (amount : ℕ) (s s' : Store)
      (run : DemurredPayment chain env from recipient amount s s')
      → (held s + run.base_value ≤ held s' + amount)
        × (held s' + amount ≤ held s + run.base_value + tax_of run.next s)
  DemurredPayment-held env from amount s s' run =
      let c =
        change_period-eq-ok chain env run.state s {r = (run.period.0, run.next)} run.period.1 in
      let f = Taxed-frame run.next (tax_of run.next s) (with_state s run.next) run.paid c.3 in
      let m = total-moved from run.to amount run.base_value run.paid run.enough in
      (omega (arith, ap held run.result), omega (arith, ap held run.result))
