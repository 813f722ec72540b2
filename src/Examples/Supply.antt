-- ===== src/Examples/Supply.antt =====
-- Mints, settings and periods on the demo contract.
use demurrage_token.Base.{
  bytes_eq, bytes_iff, bytes_beq, ◌≤◌, ◌≡◌, ◌≢◌, true, refl, some, arith, Bool, inl, ◌⊎◌,
}
use demurrage_token.Outcome.{Outcome, ok, err, value_or}
use demurrage_token.Std.{Addr, Response}
use demurrage_token.State.{
  Store, ContractError, State, TokenInfo, MinterData, cannot_exceed_cap, unauthorized,
}
use demurrage_token.Period.{change_period, apply_demurrage}
use demurrage_token.Demurrage.{decay_by}
use demurrage_token.Period.Decays.{apply_demurrage_repeats, with_state}
use demurrage_token.Period.Effects.{HasBegun, Taxed, tax_of, next_state, change_period-eq-ok}
use demurrage_token.Period.Advance.{advance}
use demurrage_token.Msg.{ExecuteMsg}
use demurrage_token.Contract.{execute, execute_transfer, execute_mint, execute_update_minter}
use demurrage_token.Supply.Mint.{Minted, execute_mint-eq-ok}
use demurrage_token.Supply.Refusals.{execute_mint_refused}
use demurrage_token.Supply.Minter.{execute_update_minter-eq-ok}
use demurrage_token.Settings.{PaidTo, sink_redirected}
use demurrage_token.Examples.Opened.{all_payments}
use demurrage_token.Examples.{
  demo_chain, demo_store, demo_state, demo_token, alice, bob, from, block_at, returned, nothing,
}

alice_not_bob : alice ≢ bob
unfolding bytes_beq
alice_not_bob e = let h : bytes_beq alice bob ≡ true = (bytes_iff alice bob).1 e in cc

abbrev minted : Outcome ContractError Response × Store
minted = execute_mint demo_chain (block_at 5) (from alice) bob 250 demo_store

mint_seen : Minted demo_chain (block_at 5) alice bob 250 demo_store minted.1
unfolding all_payments
mint_seen =
    execute_mint-eq-ok demo_chain (block_at 5) (from alice) bob 250 demo_store
      (returned nothing minted refl)

-- 5500 would be beyond the cap.
execute_mint_refused_example :
    execute_mint demo_chain (block_at 5) (from alice) bob 4500 demo_store
    ≡ (err cannot_exceed_cap, demo_store)
unfolding bytes_beq
execute_mint_refused_example =
    execute_mint_refused demo_chain (block_at 5) (from alice) bob 4500 demo_store demo_token
      demo_state cannot_exceed_cap refl refl (omega arith) refl

abbrev updated : Outcome ContractError Response × Store
updated = execute_update_minter demo_chain (block_at 5) (from alice) bob demo_store

handed_on :
    (token : TokenInfo) × (m : MinterData) × (minter : Addr) × (demo_store.token_info ≡ some token)
    × (token.mint ≡ some m)
    × (m.minter ≡ alice)
    × (demo_chain.addr_validate bob ≡ ok minter)
    × (updated.1 ≡ record demo_store {
      token_info = some (record token { mint = some (record m { minter = minter }) });
    })
unfolding all_payments
handed_on =
    execute_update_minter-eq-ok demo_chain (block_at 5) (from alice) bob demo_store
      (returned nothing updated refl)

abbrev changed : Store
changed =
    (execute demo_chain (block_at 5) (from bob) (ExecuteMsg.change_sink_address bob) demo_store).1

abbrev paid : Outcome ContractError Response × Store
paid = execute_transfer demo_chain (block_at 7) (from alice) alice 300 changed

sink_redirected_example :
    let next =
      advance demo_chain (block_at 7).block.time (record demo_state { sink_address = bob }) in
    PaidTo demo_chain bob demo_token next alice alice 300 demo_store paid.1
unfolding all_payments
sink_redirected_example =
    sink_redirected demo_chain (block_at 5) (from bob) demo_store demo_state refl bob bob demo_token
      (block_at 7) (from alice) alice 300 refl refl (returned nothing paid refl)

abbrev period : Outcome ContractError ((ContractError ⊎ Bool) × State) × Store
period = change_period demo_chain (block_at 190) demo_state demo_store

abbrev state_after : State
state_after = (value_or (inl unauthorized, demo_state) period.0).1

period_changed_once :
    (state_after.demurrage_amount ≤ demo_state.demurrage_amount)
    × (state_after ≡ next_state demo_state state_after.demurrage_amount)
    × HasBegun demo_chain (block_at 190) demo_state
    × Taxed demo_chain state_after
        (tax_of state_after demo_store)
        (with_state demo_store state_after)
        period.1
unfolding all_payments
period_changed_once =
    change_period-eq-ok demo_chain (block_at 190) demo_state demo_store
      {r = value_or (inl unauthorized, demo_state) period.0} refl

abbrev decayed : Outcome ContractError (Bool × State) × Store
decayed = apply_demurrage demo_chain (block_at 190).block.time demo_state demo_store

abbrev once : State
once = (value_or (true, demo_state) decayed.0).1

abbrev decayed_again : Outcome ContractError (Bool × State) × Store
decayed_again = apply_demurrage demo_chain (block_at 190).block.time once decayed.1

abbrev twice : State
twice = (value_or (true, demo_state) decayed_again.0).1

apply_demurrage_repeats_example :
    (decay_by demo_state.demurrage_amount demo_state.tax_level 3 ≡ ok once.demurrage_amount)
    × (decay_by once.demurrage_amount demo_state.tax_level 3 ≡ ok twice.demurrage_amount)
    × (twice.demurrage_timestamp ≡ demo_state.demurrage_timestamp)
unfolding all_payments
apply_demurrage_repeats_example =
    apply_demurrage_repeats demo_chain (block_at 190).block.time demo_state demo_store 3
      {r = value_or (true, demo_state) decayed.0} {r' = value_or (true, demo_state) decayed_again.0}
      refl (omega arith) refl refl
