-- ===== src/Examples/Returns.antt =====
-- A transfer on the demo contract whose conditions are met, and whose effect follows from them.
use demurrage_token.Base.{
  leb, if◌then◌else◌, ◌-◌, true, pair_eq, some, ◌+◌, ◌≤◌, ℕ, ◌*◌, ◌/◌, ◌^◌, ◌≤◌, ◌<◌, ◌≡◌, ◌≢◌,
  refl, arith, bytes_eq, [], ◌∷◌, false,
}
use demurrage_token.Outcome.{err, Outcome, ok, panic, value_or}
use demurrage_token.Std.{overflow, Response}
use demurrage_token.Outcome.Word.{mod64, mod128}
use demurrage_token.Storage.Sum.{total}
use demurrage_token.Demurrage.BaseAmount.{full_amount}
use demurrage_token.Cw20.{AllowanceResponse}
use demurrage_token.Expiration.{at_height}
use demurrage_token.Balances.{balance_of, set_balance}
use demurrage_token.Supply.Mint.{with_supply, with_token_info}
use demurrage_token.Supply.Returns.{mint_response, execute_mint_returns}
use demurrage_token.State.{std, State, Store, TokenInfo, ContractError}
use demurrage_token.Balances.Moves.{moved}
use demurrage_token.Demurrage.{resolution_factor, decay_by}
use demurrage_token.Period.{next_demurrage_amount}
use demurrage_token.Period.Decays.{with_state, with_amount}
use demurrage_token.Period.Effects.{Taxed, tax_of, next_state}
use demurrage_token.Period.Returns.{Ready}
use demurrage_token.Payments.Limits.{largest_amount, execute_limit}
use demurrage_token.Payments.Returns.{
  transfer_response, execute_transfer_branches, execute_transfer_from_returns,
}
use demurrage_token.Msg.{ExecuteMsg}
use demurrage_token.Contract.{execute, execute_transfer, execute_transfer_from, execute_mint}
use demurrage_token.Reachable.Stuck.{execute_stuck}
use demurrage_token.Demurrage.{grow_loop, nano_divider, growth_resolution_factor}
use demurrage_token.Examples.Opened.{all_payments}
use demurrage_token.Examples.{
  is_ok, demo_chain, demo_token, demo_state, demo_store, alice, bob, sink, from, block_at, returned,
  nothing,
}

-- Two minutes have passed: the modifier has decayed over one.
abbrev decayed_amount : ℕ
decayed_amount = value_or 0 (decay_by (10 ^ 23) 501059083733730000 2)

abbrev grown_amount : ℕ
grown_amount =
    value_or 0 (next_demurrage_amount demo_chain (with_amount demo_state decayed_amount) 2)

decayed_low : 0 < decayed_amount
unfolding all_payments
decayed_low = omega arith

by_numbers : (2 * 60 < mod64) × (10 ^ 23 ≤ full_amount) × (0 + 1 < mod64) × (1000000 ≤ 1000125)
by_numbers = omega arith

supply_small : 1000 * resolution_factor < mod128
supply_small = omega arith

balances_small : 1000 + 1000 < mod128
balances_small = omega arith

sink_no_panic : demo_chain.addr_validate sink ≢ panic
sink_no_panic h = cc

abbrev ready_on :
    (s : Store) (token : TokenInfo)
    → s.token_info ≡ some token
    → token.total_supply * resolution_factor < mod128
    → total s.balances + token.total_supply < mod128
    → Ready demo_chain (block_at 125) demo_state s
unfolding all_payments
ready_on s token stored fits room = record {
  minutes = 2;
  later = decayed_amount;
  moved_on = 1000120 * 10 ^ 9;
  period_start = 1000000 * 10 ^ 9;
  grown = grown_amount;
  token = token;
  elapsed = refl;
  elapsed_fits = by_numbers.0;
  advanced = refl;
  low = by_numbers.1;
  decayed = refl;
  counted = by_numbers.2;
  starts = refl;
  begun = by_numbers.3;
  grows = refl;
  stored_token = stored;
  supply_fits = fits;
  room = room;
  sink_checked = sink_no_panic;
}

abbrev ready : Ready demo_chain (block_at 125) demo_state demo_store
unfolding all_payments
ready = ready_on demo_store demo_token refl supply_small balances_small

abbrev transferred : Outcome ContractError Response × Store
transferred = execute_transfer demo_chain (block_at 125) (from alice) bob 300 demo_store

execute_transfer_branches_example :
    let next = next_state demo_state decayed_amount in
    (paid : Store) × Taxed demo_chain next
      (tax_of next demo_store)
      (with_state demo_store next)
      paid
    × (transferred ≡ (
        if leb 300 (balance_of paid alice)
        then (
          ok (transfer_response alice bob 300),
          moved alice bob 300 (300 * resolution_factor / (decayed_amount * 100000)) paid,
        )
        else (err (std (overflow (balance_of paid alice) 300)), paid)))
unfolding all_payments
execute_transfer_branches_example =
    execute_transfer_branches demo_chain (block_at 125) (from alice) bob 300 demo_store demo_state
      bob ready refl refl (omega arith) (omega arith) (omega arith)

execute_limit_example : 300 ≤ largest_amount
unfolding all_payments
execute_limit_example =
    execute_limit demo_chain (block_at 125) (from alice) (ExecuteMsg.transfer bob 300) demo_store
      (returned nothing transferred refl)

-- One more than the largest amount panics, however much the sender holds.
abbrev rich_store : Store
rich_store = record demo_store { balances = (alice, 10 ^ 12) ∷ [] }

above_limit :
    is_ok (execute_transfer demo_chain (block_at 125) (from alice) bob 34028236693 rich_store).0
    ≡ false
unfolding all_payments
above_limit = refl

-- Alice lets Bob use 500 up to block 200.
abbrev lent : AllowanceResponse
lent = record { allowance = 500; expires = at_height 200 }

abbrev lent_store : Store
lent_store = record demo_store { allowances = ((alice, bob), lent) ∷ [] }

abbrev used_store : Store
used_store = record demo_store { allowances = ((alice, bob), record lent { allowance = 200 }) ∷ [] }

execute_transfer_from_returns_example :
    let next = next_state demo_state decayed_amount in
    (paid : Store) × Taxed demo_chain next
      (tax_of next used_store)
      (with_state used_store next)
      paid
    × (execute_transfer_from demo_chain (block_at 125) (from bob) alice sink 300 lent_store ≡ (
      ok (transfer_response alice sink 300),
      moved alice sink 300 (300 * resolution_factor / (decayed_amount * 100000)) paid,
    ))
unfolding all_payments
execute_transfer_from_returns_example =
    execute_transfer_from_returns demo_chain (block_at 125) (from bob) alice sink 300 lent_store
      demo_state alice sink lent (ready_on used_store demo_token refl supply_small balances_small)
      refl refl refl refl refl (omega arith) (omega arith) (omega arith) (omega arith) (omega arith)

-- Alice, who may mint up to 5000, mints 250 to Bob.
abbrev larger_token : TokenInfo
larger_token = with_supply demo_token 1250

abbrev larger_store : Store
larger_store = with_token_info demo_store larger_token

larger_supply_small : 1250 * resolution_factor < mod128
larger_supply_small = omega arith

larger_balances_small : 1000 + 1250 < mod128
larger_balances_small = omega arith

execute_mint_returns_example :
    let next = next_state demo_state decayed_amount in
    (paid : Store) × Taxed demo_chain next
      (tax_of next larger_store)
      (with_state larger_store next)
      paid
    × (execute_mint demo_chain (block_at 125) (from alice) bob 250 demo_store ≡ (
      ok (mint_response bob 250),
      set_balance bob
          (balance_of paid bob + 250 * resolution_factor / (decayed_amount * 100000))
          paid,
    ))
unfolding all_payments
execute_mint_returns_example =
    execute_mint_returns demo_chain (block_at 125) (from alice) bob 250 demo_store demo_token
      (record { minter = alice; cap = some 5000 }) demo_state bob
      (ready_on larger_store larger_token refl larger_supply_small larger_balances_small) refl refl
      refl (omega arith) (omega arith) refl refl (omega arith) (omega arith) (omega arith)
      (omega arith)

-- With a tax of a half the growth overflows over 98 minutes. A transfer in time passes, and after
-- 200 minutes none does.
abbrev half_state : State
half_state = record demo_state { tax_level = 5 * 10 ^ 27 }

abbrev half_store : Store
half_store = record demo_store { demurrage_state = some half_state }

growth_overflows : grow_loop (98 - 1) (5 * 10 ^ 27 / nano_divider) growth_resolution_factor ≡ panic
unfolding all_payments
growth_overflows = refl

in_time : is_ok (execute_transfer demo_chain (block_at 60) (from alice) bob 300 half_store).0 ≡ true
unfolding all_payments
in_time = refl

execute_stuck_example :
    execute demo_chain (block_at 12000) (from alice) (ExecuteMsg.transfer bob 300) half_store
    ≢ (ok nothing, half_store)
unfolding all_payments
execute_stuck_example =
    execute_stuck demo_chain (block_at 12000) half_state (1000000 * 10 ^ 9) 98 refl growth_overflows
      (omega arith) (from alice) (ExecuteMsg.transfer bob 300) half_store nothing half_store refl
      refl
