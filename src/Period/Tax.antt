-- ===== src/Period/Tax.antt =====
-- `change_period` of src/contract.rs where token info is stored and the sink is valid: the tax of
-- the period is credited, since only a panic could prevent it.
use demurrage_token.Base.{ℕ, ◌+◌, ◌≡◌, ◌≢◌, arith, some, Bool, true, inl, inr, ◌⊎◌}
use demurrage_token.Outcome.{ok, err, value_or, Outcome-cases}
use demurrage_token.Std.{Addr, Env}
use demurrage_token.Chain.{Chain}
use demurrage_token.State.{ContractError, State, Store, TokenInfo}
use demurrage_token.Balances.{balance_of, set_balance}
use demurrage_token.Balances.Laws.{credit_account_lem}
use demurrage_token.Demurrage.{distribution_of}
use demurrage_token.Period.{
  apply_default_redistribution, send_tax, settle_period, apply_demurrage, demurrage_cycles,
  change_period,
}
use demurrage_token.Period.Decays.{with_state, apply_demurrage-eq-ok}
use demurrage_token.Period.Effects.{get_distribution_lem, settle_period-eq-ok}
use demurrage_token.Period.Advance.{advance, change_period-advance}

-- The storage with the state `next`, once the sink has its tax.
abbrev pub taxed : Addr → ℕ → State → Store → Store
taxed sink tax next s = set_balance sink (balance_of s sink + tax) (with_state s next)

-- The tax is computed, or its arithmetic panics.
distribution_of_never_fails :
    (total_supply amount : ℕ) (e : ContractError) → distribution_of total_supply amount ≢ err e
unfolding distribution_of
distribution_of_never_fails total_supply amount e h = ground arith

module _ (chain : Chain) (sink : Addr) (token : TokenInfo) where
  send_tax-valid :
      (state : State) (tax : ℕ) (s : Store) {r : ContractError ⊎ Bool} {s' : Store}
      → chain.addr_validate state.sink_address ≡ ok sink
      → send_tax chain state (inr tax) s ≡ (ok r, s')
      → s' ≡ set_balance sink (balance_of s sink + tax) s
  unfolding send_tax apply_default_redistribution
  send_tax-valid state tax s valid h = ground (arith, credit_account_lem sink tax s, valid)

  -- What the end of a period leaves, and the tax that it computes.
  abbrev Settled : State → Store → Store → Type 0
  Settled state s s' =
      (tax : ℕ) × (distribution_of token.total_supply state.demurrage_amount ≡ ok tax)
      × (s' ≡ taxed sink tax state s)

  settle_period-valid :
      (state : State) (s : Store) {r : (ContractError ⊎ Bool) × State} {s' : Store}
      → s.token_info ≡ some token
      → chain.addr_validate state.sink_address ≡ ok sink
      → settle_period chain state s ≡ (ok r, s')
      → Settled state s s'
  unfolding settle_period
  settle_period-valid state s {r} {s'} stored valid h =
      let g = get_distribution_lem state (with_state s state) in
      elim (Outcome-cases (distribution_of token.total_supply state.demurrage_amount)) [
        | inl (tax, e) ↦
            let k =
              send_tax-valid state tax (with_state s state) {r = r.0} {s' = s'} valid
                (ground (arith, g, stored, e)) in
            (tax, e, k)
        | inr (inl (x, e)) ↦
            absurd (distribution_of_never_fails token.total_supply state.demurrage_amount x e)
        | inr (inr e) ↦ absurd (ground (arith, g, stored))
      ]

  -- The first store matters only by what a new state does not replace.
  Settled-with_state :
      (state state1 : State) {s s1 s' : Store}
      → (s1 ≡ s) ⊎ (s1 ≡ with_state s state1)
      → Settled state s1 s'
      → Settled state s s'
  Settled-with_state state state1 (inl e) k = (rw e at k)
  Settled-with_state state state1 (inr e) k = (rw e at k)

  -- A call that does not panic leaves the state that the time decides, and the sink has the tax
  -- that goes with it.
  pub change_period-valid :
      (env : Env) (state : State) (s : Store) {r : (ContractError ⊎ Bool) × State} {s' : Store}
      → s.token_info ≡ some token
      → chain.addr_validate state.sink_address ≡ ok sink
      → change_period chain env state s ≡ (ok r, s')
      → (r.1 ≡ advance chain env.block.time state) × Settled r.1 s s'
  unfolding change_period demurrage_cycles
  change_period-valid env state s {r} {s'} stored valid h =
      let p = apply_demurrage chain env.block.time state s in
      let state1 = (value_or (true, state) p.0).1 in
      let state2 = record state1 { current_period = state1.current_period + 1 } in
      let a =
        apply_demurrage-eq-ok chain env.block.time state s {r = value_or (true, state) p.0}
          {s' = p.1} (ground arith) in
      let settled : settle_period chain state2 p.1 ≡ (ok r, s') = ground arith in
      let same : state2.sink_address ≡ state.sink_address = ground (arith, a.1) in
      let token_same : p.1.token_info ≡ some token = ground (arith, a.2, stored) in
      let k = settle_period-valid state2 p.1 {r = r} {s' = s'} token_same (rw same valid) settled in
      let is_next = (settle_period-eq-ok chain state2 p.1 {r = r} {s' = s'} settled).0 in
      (
        change_period-advance chain env state s h,
        rw is_next (Settled-with_state state2 state1 a.2 k),
      )
