-- ===== src/Reachable/Stuck.antt =====
-- The growth that `change_period` of src/contract.rs computes and drops, where it overflows.
use demurrage_token.Base.{
  ℕ, ◌+◌, ◌-◌, ◌/◌, ◌≤◌, ◌<◌, ◌≡◌, ◌≢◌, refl, zero, suc, ap, ◌∙◌, lt→ltb, ◌⊎◌, Bool, arith, true,
  some,
}
use demurrage_token.Outcome.{ok, panic, value_or}
use demurrage_token.Std.{Env, MessageInfo, Response, Timestamp}
use demurrage_token.Chain.{Chain}
use demurrage_token.State.{State, Store, ContractError}
use demurrage_token.Demurrage.{growth_resolution_factor, nano_divider, grow_loop, grow_by}
use demurrage_token.Demurrage.Growth.{grow_loop_panics}
use demurrage_token.Period.{
  apply_demurrage, next_demurrage_amount, get_period_time_delta, demurrage_cycles, change_period,
}
use demurrage_token.Period.Decays.{with_amount, apply_demurrage-eq-ok}
use demurrage_token.Payments.Demurred.{execute_transfer-eq-ok, execute_transfer_from-eq-ok}
use demurrage_token.Supply.Mint.{execute_mint-eq-ok}
use demurrage_token.Msg.{ExecuteMsg}
use demurrage_token.Contract.{execute}
use demurrage_token.Reachable.Clock.{periods_of}

-- Where the loop panics, so does the growth of every value over more periods.
grow_by-panic :
    (value tax_level n periods : ℕ)
    → grow_loop (n - 1) (tax_level / nano_divider) growth_resolution_factor ≡ panic
    → n ≤ periods
    → grow_by value tax_level periods ≡ panic
unfolding grow_by
grow_by-panic value tax_level n periods h le =
    let k = periods - 1 - (n - 1) in
    let e : k + (n - 1) ≡ periods - 1 = omega arith in
    let more = grow_loop_panics k (n - 1) (tax_level / nano_divider) growth_resolution_factor h in
    let over : grow_loop (periods - 1) (tax_level / nano_divider) growth_resolution_factor ≡ panic =
      rw e at more in
    rw over refl

grow_loop_rounds : (n t f : ℕ) → grow_loop n t f ≡ panic → 0 < n
unfolding grow_loop
grow_loop_rounds zero t f h = cc
grow_loop_rounds (suc n) t f h = omega arith

module _ (chain : Chain) (env : Env) (state : State) (t : Timestamp) where
  -- The minutes since the start of the counted period.
  abbrev pub minutes_since : ℕ
  minutes_since = (chain.seconds env.block.time - chain.seconds t) / 60

  change_period-grows :
      (s : Store) {r : (ContractError ⊎ Bool) × State} {s' : Store}
      → get_period_time_delta chain state.start_timestamp state.current_period state.period_minute
        ≡ ok t
      → change_period chain env state s ≡ (ok r, s')
      → (a : ℕ) × (next_demurrage_amount chain (with_amount state a) minutes_since ≢ panic)
  unfolding change_period demurrage_cycles
  change_period-grows s {r} {s'} start h =
      let p = apply_demurrage chain env.block.time state s in
      let state1 = (value_or (true, state) p.0).1 in
      let a =
        apply_demurrage-eq-ok chain env.block.time state s {r = value_or (true, state) p.0}
          {s' = p.1} (ground arith) in
      (state1.demurrage_amount, λ over. ground (arith, a.1))

  module _ (n : ℕ)
      (start : get_period_time_delta chain state.start_timestamp state.current_period
          state.period_minute
        ≡ ok t)
      (over : grow_loop (n - 1) (state.tax_level / nano_divider) growth_resolution_factor ≡ panic)
      (late : n ≤ minutes_since) where
    growth-panic : (a : ℕ) → next_demurrage_amount chain (with_amount state a) minutes_since ≡ panic
    unfolding next_demurrage_amount
    growth-panic a =
        let some_rounds =
          grow_loop_rounds (n - 1) (state.tax_level / nano_divider) growth_resolution_factor over in
        let more = grow_by-panic a state.tax_level n minutes_since over late in
        rw (lt→ltb 0 minutes_since (omega arith)) more

    change_period_stuck :
        (s s' : Store) (r : (ContractError ⊎ Bool) × State)
        → change_period chain env state s ≢ (ok r, s')
    change_period_stuck s s' r h =
        let (a, returns) = change_period-grows s start h in returns (growth-panic a)

    -- Where the growth over `n` periods overflows in its loop, whatever it is that grows, and `n`
    -- minutes or more have passed since the counted period began, no transfer, transfer by
    -- allowance or mint of anybody succeeds.
    pub execute_stuck :
        (info : MessageInfo) (msg : ExecuteMsg) (s : Store) (r : Response) (s' : Store)
        → s.demurrage_state ≡ some state
        → periods_of msg ≡ 1
        → execute chain env info msg s ≢ (ok r, s')
    unfolding execute
    execute_stuck info (ExecuteMsg.transfer recipient amount) s r s' stored one h =
        let run = execute_transfer-eq-ok chain env info recipient amount s h in
        let same : run.state ≡ state = ground (arith, run.stored, stored) in
        change_period_stuck s run.paid (run.period.0, run.next) (rw same at run.period.1)
    execute_stuck info (ExecuteMsg.transfer_from owner recipient amount) s r s' stored one h =
        let (from, s0, _, d, run) =
          execute_transfer_from-eq-ok chain env info owner recipient amount s h in
        let stored0 : s0.demurrage_state ≡ some state =
          ap (λ (x : Store). x.demurrage_state) d.result ∙ stored in
        let same : run.state ≡ state = ground (arith, run.stored, stored0) in
        change_period_stuck s0 run.paid (run.period.0, run.next) (rw same at run.period.1)
    execute_stuck info (ExecuteMsg.mint recipient amount) s r s' stored one h =
        let run = execute_mint-eq-ok chain env info recipient amount s h in
        let same : run.state ≡ state = ground (arith, run.state_stored, stored) in
        change_period_stuck _ run.paid (run.period.0, run.next) (rw same at run.period.1)
    execute_stuck info msg s r s' stored one h = absurd (omega arith)
