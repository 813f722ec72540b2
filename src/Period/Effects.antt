-- ===== src/Period/Effects.antt =====
-- `change_period` of src/contract.rs: what a call that does not panic has done.
use demurrage_token.Base.{
  ℕ, ◌+◌, ◌≤◌, ◌≡◌, refl, arith, Bool, true, Option, some, none, inl, inr, ◌⊎◌, [],
}
use demurrage_token.Outcome.{Outcome, ok, err, value_or, Outcome-cases}
use demurrage_token.Std.{Addr, Env, Timestamp}
use demurrage_token.Chain.{Chain}
use demurrage_token.State.{State, Store, TokenInfo, ContractError, unauthorized}
use demurrage_token.Balances.{balance_of, set_balance}
use demurrage_token.Balances.Laws.{credit_account_lem}
use demurrage_token.Demurrage.{distribution_of}
use demurrage_token.Demurrage.BaseAmount.{distribution_of-le}
use demurrage_token.Period.{
  get_distribution, apply_default_redistribution, send_tax, settle_period, apply_demurrage,
  change_period, demurrage_cycles, get_period_time_delta,
}
use demurrage_token.Period.Decays.{with_state, apply_demurrage-eq-ok}

-- What `get_distribution` computes from the token info that is stored.
abbrev pub tax_result : State → Option TokenInfo → Outcome ContractError ℕ
tax_result state none = err unauthorized
tax_result state (some info) = distribution_of info.total_supply state.demurrage_amount

pub get_distribution_lem :
    (state : State) (s : Store) → get_distribution state s ≡ (tax_result state s.token_info, s)
unfolding get_distribution
get_distribution_lem state s = ground arith

-- The tax of a period; 0 where no token info is stored.
abbrev pub tax_of : State → Store → ℕ
tax_of state s = value_or 0 (tax_result state s.token_info)

-- The tax is at most the total supply.
pub tax_of-le :
    (state : State) (s : Store) (info : TokenInfo)
    → s.token_info ≡ some info
    → tax_of state s ≤ info.total_supply
tax_of-le state s info e =
    ground (arith, distribution_of-le info.total_supply state.demurrage_amount {r = tax_of state s})

-- The state after a period: one more period is counted, and the modifier is `a`.
abbrev pub next_state : State → ℕ → State
next_state state a = record state {
  current_period = state.current_period + 1;
  demurrage_amount = a;
}

module _ (chain : Chain) where
  -- The address that the tax goes to, if the text in the state is valid.
  abbrev pub sink_of : State → Addr
  sink_of state = value_or [] (chain.addr_validate state.sink_address)

  -- Either nothing was paid, or the sink was credited with `distribution`.
  abbrev pub Taxed : State → ℕ → Store → Store → Type 0
  Taxed state distribution s s' =
      (s' ≡ s) ⊎ (s' ≡ set_balance (sink_of state) (balance_of s (sink_of state) + distribution) s)

  send_tax-eq-ok :
      (state : State) (distribution : ℕ) (s : Store) {r : ContractError ⊎ Bool} {s' : Store}
      → send_tax chain state (inr distribution) s ≡ (ok r, s')
      → Taxed state distribution s s'
  unfolding send_tax apply_default_redistribution
  send_tax-eq-ok state distribution s h =
      ground (arith, credit_account_lem (sink_of state) distribution s)

  -- The period that ends has begun: its start is not in the future.
  abbrev pub HasBegun : Env → State → Type 0
  HasBegun env state =
      (t : Timestamp) × (get_period_time_delta chain state.start_timestamp state.current_period
          state.period_minute
        ≡ ok t)
      × (chain.seconds t ≤ chain.seconds env.block.time)

  send_tax_failed :
      (state : State) (e : ContractError) (s : Store)
      → send_tax chain state (inl e) s ≡ (ok (inl e), s)
  unfolding send_tax
  send_tax_failed state e s = refl

  -- The first store matters to the settled period only by what a new state does not replace.
  Taxed-with_state :
      (state state1 : State) {s s1 s' : Store}
      → (s1 ≡ s) ⊎ (s1 ≡ with_state s state1)
      → Taxed state (tax_of state s1) (with_state s1 state) s'
      → Taxed state (tax_of state s) (with_state s state) s'
  Taxed-with_state state state1 (inl e) k = (rw e at k)
  Taxed-with_state state state1 (inr e) k = (rw e at k)

  pub settle_period-eq-ok :
      (state : State) (s : Store) {r : (ContractError ⊎ Bool) × State} {s' : Store}
      → settle_period chain state s ≡ (ok r, s')
      → (r.1 ≡ state) × Taxed state (tax_of state s) (with_state s state) s'
  unfolding settle_period
  settle_period-eq-ok state s {r} {s'} h =
      let g = get_distribution_lem state (with_state s state) in
      elim (Outcome-cases (tax_result state s.token_info)) [
        | inl (d, e) ↦
            let k =
              send_tax-eq-ok state d (with_state s state) {r = r.0} {s' = s'} (ground (arith, g)) in
            (ground (arith, g), rw e k)
        | inr (inl (x, e)) ↦
            let k = send_tax_failed state x (with_state s state) in
            (ground (arith, g, k), inl (ground (arith, g, k)))
        | inr (inr e) ↦ absurd (ground (arith, g))
      ]

  -- A call that does not panic found the period begun, counts one more, does not raise the
  -- modifier, saves the state that it returns, and credits the tax to the sink, or nothing.
  pub change_period-eq-ok :
      (env : Env) (state : State) (s : Store) {r : (ContractError ⊎ Bool) × State} {s' : Store}
      → change_period chain env state s ≡ (ok r, s')
      → (r.1.demurrage_amount ≤ state.demurrage_amount)
        × (r.1 ≡ next_state state r.1.demurrage_amount)
        × HasBegun env state
        × Taxed r.1 (tax_of r.1 s) (with_state s r.1) s'
  unfolding change_period demurrage_cycles
  change_period-eq-ok env state s {r} {s'} h =
      let p = apply_demurrage chain env.block.time state s in
      let state1 = (value_or (true, state) p.0).1 in
      let state2 = record state1 { current_period = state1.current_period + 1 } in
      let a =
        apply_demurrage-eq-ok chain env.block.time state s {r = value_or (true, state) p.0}
          {s' = p.1} (ground arith) in
      let k = settle_period-eq-ok state2 p.1 {r = r} {s' = s'} (ground arith) in
      (
        ground (arith, a.0, a.1, k.0),
        ground (arith, a.1, k.0),
        (
          value_or 0 (
              get_period_time_delta chain state.start_timestamp state.current_period
                state.period_minute),
          ground (arith, a.1),
          ground (arith, a.1),
        ),
        rw k.0 (Taxed-with_state state2 state1 a.2 k.1),
      )
