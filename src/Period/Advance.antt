-- ===== src/Period/Advance.antt =====
-- `change_period` of src/contract.rs as a function of the time and the state: the exact modifier.
use demurrage_token.Base.{ℕ, ◌+◌, ◌-◌, ◌/◌, ◌==◌, ◌≡◌, arith, if◌then◌else◌, Bool, true, ◌⊎◌}
use demurrage_token.Outcome.{ok, value_or}
use demurrage_token.Std.{Env, Timestamp}
use demurrage_token.Chain.{Chain}
use demurrage_token.State.{ContractError, State, Store}
use demurrage_token.Demurrage.{decay_by}
use demurrage_token.Period.{
  get_minutes_delta, demurrage_cycles, apply_demurrage_limited, apply_demurrage, decay_state,
  change_period,
}
use demurrage_token.Period.Decays.{with_amount}
use demurrage_token.Period.Effects.{next_state, settle_period-eq-ok}

module _ (chain : Chain) where
  -- The whole minutes since the time of the last demurrage.
  abbrev pub minutes_since : Timestamp → State → ℕ
  minutes_since now state = (chain.seconds now - chain.seconds state.demurrage_timestamp) / 60

  -- The modifier after a decay over these minutes; within the first minute nothing decays.
  abbrev pub decayed_at : Timestamp → State → ℕ
  decayed_at now state =
      if minutes_since now state == 0
      then state.demurrage_amount
      else value_or {E = ContractError} 0
          (decay_by state.demurrage_amount state.tax_level (minutes_since now state))

  -- A period that ends at `now`.
  abbrev pub advance : Timestamp → State → State
  advance now state = next_state state (decayed_at now state)

  apply_demurrage-decayed :
      (now : Timestamp) (state : State) (s : Store) {r : Bool × State} {s' : Store}
      → apply_demurrage chain now state s ≡ (ok r, s')
      → r.1 ≡ with_amount state (decayed_at now state)
  unfolding apply_demurrage apply_demurrage_limited get_minutes_delta decay_state
  apply_demurrage-decayed now state s h = ground arith

  pub change_period-advance :
      (env : Env) (state : State) (s : Store) {r : (ContractError ⊎ Bool) × State} {s' : Store}
      → change_period chain env state s ≡ (ok r, s')
      → r.1 ≡ advance env.block.time state
  unfolding change_period demurrage_cycles
  change_period-advance env state s {r} {s'} h =
      let p = apply_demurrage chain env.block.time state s in
      let state1 = (value_or (true, state) p.0).1 in
      let state2 = record state1 { current_period = state1.current_period + 1 } in
      let a =
        apply_demurrage-decayed env.block.time state s {r = value_or (true, state) p.0} {s' = p.1}
          (ground arith) in
      let k = settle_period-eq-ok chain state2 p.1 {r = r} {s' = s'} (ground arith) in
      ground (arith, a, k.0)
