-- ===== src/Period/Returns.antt =====
-- `change_period` of src/contract.rs: when it returns, and with which state.
use demurrage_token.Base.{
  bytes_eq, ℕ, ◌+◌, ◌*◌, ◌-◌, ◌/◌, ◌≤◌, ◌<◌, ◌≡◌, ◌≢◌, arith, not, true, ◌==◌, if◌then◌else◌, some,
  inl, inr,
}
use demurrage_token.Outcome.{ok, panic, Outcome-cases}
use demurrage_token.Outcome.Word.{mod128, mod64}
use demurrage_token.Std.{Env, Timestamp}
use demurrage_token.Chain.{Chain}
use demurrage_token.State.{State, Store, TokenInfo}
use demurrage_token.Storage.Sum.{total, value-le-total}
use demurrage_token.Balances.Laws.{credit_account_lem}
use demurrage_token.Demurrage.{resolution_factor, decay_by}
use demurrage_token.Demurrage.Decay.{decay_by-le, decay_by_first_period}
use demurrage_token.Demurrage.BaseAmount.{full_amount, distribution_of_total, distribution_of-le}
use demurrage_token.Period.{
  get_minutes_delta, get_period_time_delta, decay_state, apply_demurrage, apply_demurrage_limited,
  next_demurrage_amount, apply_default_redistribution, send_tax, settle_period, demurrage_cycles,
  change_period,
}
use demurrage_token.Period.Decays.{with_amount, with_state}
use demurrage_token.Period.Effects.{get_distribution_lem, next_state}

-- The conditions on clock, arithmetic and storage under which a period can be changed: no sum or
-- product overflows, no subtraction of times goes below zero, and the sink's address can be
-- checked.
pub record Ready (chain : Chain) (env : Env) (state : State) (s : Store) : Type 0 where
  pub minutes : ℕ
  pub later : ℕ
  pub moved_on : Timestamp
  pub period_start : Timestamp
  pub grown : ℕ
  pub token : TokenInfo
  pub elapsed : get_minutes_delta chain env.block.time state.demurrage_timestamp ≡ ok minutes
  pub elapsed_fits : minutes * 60 < mod64
  pub advanced : chain.plus_seconds state.demurrage_timestamp (minutes * 60) ≡ some moved_on
  pub low : state.demurrage_amount ≤ full_amount
  pub decayed : decay_by state.demurrage_amount state.tax_level minutes ≡ ok later
  pub counted : state.current_period + 1 < mod64
  pub starts :
      get_period_time_delta chain state.start_timestamp state.current_period state.period_minute
      ≡ ok period_start
  pub begun : chain.seconds period_start ≤ chain.seconds env.block.time
  pub grows :
      next_demurrage_amount chain
        (with_amount state later)
        ((chain.seconds env.block.time - chain.seconds period_start) / 60)
      ≡ ok grown
  pub stored_token : s.token_info ≡ some token
  pub supply_fits : token.total_supply * resolution_factor < mod128
  pub room : total s.balances + token.total_supply < mod128
  pub sink_checked : chain.addr_validate state.sink_address ≢ panic

module _ (chain : Chain) where
  decay_state_returns :
      (state : State) (n later : ℕ) (t : Timestamp) (s : Store)
      → decay_by state.demurrage_amount state.tax_level n ≡ ok later
      → n * 60 < mod64
      → chain.plus_seconds state.demurrage_timestamp (n * 60) ≡ some t
      → decay_state chain state n s
        ≡ (ok (true, with_amount state later), with_state s (with_amount state later))
  unfolding decay_state
  decay_state_returns state n later t s d fit e = ground arith

  -- With no minute elapsed the state is returned as it was, which the decay over none leaves too.
  pub apply_demurrage_returns :
      (env : Env) (state : State) (s : Store) (g : Ready chain env state s)
      → apply_demurrage chain env.block.time state s ≡ (
        ok (not (g.minutes == 0), with_amount state g.later),
        if g.minutes == 0 then s else with_state s (with_amount state g.later),
      )
  unfolding apply_demurrage apply_demurrage_limited
  apply_demurrage_returns env state s g =
      let run =
        decay_state_returns state g.minutes g.later g.moved_on s g.decayed g.elapsed_fits
          g.advanced in
      let free = decay_by_first_period state.demurrage_amount state.tax_level g.minutes in
      ground (arith, run, free, g.elapsed, g.decayed, g.low)

  -- The tax is credited, or its address is refused; a panic would need an overflow.
  send_tax_returns :
      (state : State) (d : ℕ) (s : Store)
      → total s.balances + d < mod128
      → chain.addr_validate state.sink_address ≢ panic
      → send_tax chain state (inr d) s ≡ (ok (inr true), (send_tax chain state (inr d) s).1)
  unfolding send_tax apply_default_redistribution
  send_tax_returns state d s room checked =
      elim (Outcome-cases (chain.addr_validate state.sink_address)) [
        | inl (sink, e) ↦
            let part = value-le-total sink s.balances in
            ground (arith, e, part, credit_account_lem sink d s)
        | inr (inl (x, e)) ↦ ground (arith, e)
        | inr (inr e) ↦ absurd (checked e)
      ]

  settle_period_returns :
      (state : State) (s : Store) (token : TokenInfo)
      → s.token_info ≡ some token
      → state.demurrage_amount ≤ full_amount
      → token.total_supply * resolution_factor < mod128
      → total s.balances + token.total_supply < mod128
      → chain.addr_validate state.sink_address ≢ panic
      → settle_period chain state s ≡ (ok (inr true, state), (settle_period chain state s).1)
  unfolding settle_period
  settle_period_returns state s token stored low fit room checked =
      let (d, e, _, _) = distribution_of_total token.total_supply state.demurrage_amount low fit in
      let le = distribution_of-le token.total_supply state.demurrage_amount e in
      let paid = send_tax_returns state d (with_state s state) (omega arith) checked in
      ground (arith, e, stored, get_distribution_lem state (with_state s state), paid)

  -- Where its conditions are met, the period is changed: the state that is returned counts one
  -- more period and carries the decayed modifier.
  pub change_period_returns :
      (env : Env) (state : State) (s : Store) (g : Ready chain env state s)
      → change_period chain env state s
        ≡ (ok (inr true, next_state state g.later), (change_period chain env state s).1)
  unfolding change_period demurrage_cycles
  change_period_returns env state s g =
      let applied = apply_demurrage_returns env state s g in
      let s1 = if g.minutes == 0 then s else with_state s (with_amount state g.later) in
      let low : g.later ≤ full_amount =
        omega
          (arith, g.low, decay_by-le state.demurrage_amount state.tax_level g.minutes g.decayed) in
      let done =
        settle_period_returns (next_state state g.later) s1 g.token (ground (arith, g.stored_token))
          low g.supply_fits (ground (arith, g.room)) g.sink_checked in
      ground (arith, applied, done, g.counted, g.starts, g.begun, g.grows)
