-- ===== src/Examples/Payments.antt =====
-- Payments on the demo contract.
use demurrage_token.Payments.Branches.{execute_send_branches, execute_burn_branches}
use demurrage_token.Base.{
  some, bytes_eq, bytes_beq, ◌+◌, ◌≤◌, ◌<◌, ◌≡◌, ◌=?◌, false, if◌then◌else◌, false, bytes, refl,
  arith,
}
use demurrage_token.Outcome.{err, Outcome, ok, value_or}
use demurrage_token.Std.{overflow, Addr, Response, Timestamp}
use demurrage_token.State.{std, Store, ContractError}
use demurrage_token.Storage.{may_load, save}
use demurrage_token.Balances.{set_balance, balance_of, debit_account, credit_account, checked_sub}
use demurrage_token.Period.{get_period_time_delta}
use demurrage_token.Allowances.{into_cosmos_msg, reduce_total_supply}
use demurrage_token.Contract.{execute_transfer, execute_send, execute_burn}
use demurrage_token.Payments.Totals.{held}
use demurrage_token.Payments.Conservation.{
  Taken, execute_send_conserves, execute_burn_takes, execute_transfer_inflates,
}
use demurrage_token.Payments.Periods.{transfer_waits}
use demurrage_token.Examples.Opened.{all_payments}
use demurrage_token.Examples.{
  demo_token, demo_chain, demo_store, demo_state, alice, bob, from, block_at, returned, nothing,
  is_ok,
}

abbrev sent : Outcome ContractError Response × Store
sent = execute_send demo_chain (block_at 5) (from alice) bob 300 (bytes "hi") demo_store

send_keeps_sums :
    (to : Addr) × (demo_chain.addr_validate bob ≡ ok to)
    × ((j : Addr)
        → balance_of sent.1 j + (if alice =? j then 300 else 0)
          ≡ balance_of demo_store j + (if to =? j then 300 else 0))
    × (held sent.1 ≡ held demo_store)
    × (sent.1.token_info ≡ demo_store.token_info)
unfolding execute_send debit_account credit_account checked_sub may_load save bytes_beq
    into_cosmos_msg
send_keeps_sums =
    execute_send_conserves demo_chain (block_at 5) (from alice) demo_store bob 300 (bytes "hi")
      (returned nothing sent refl)

-- A transfer in the first period, then one in the second.
abbrev first : Outcome ContractError Response × Store
first = execute_transfer demo_chain (block_at 5) (from alice) bob 300 demo_store

abbrev second : Outcome ContractError Response × Store
second = execute_transfer demo_chain (block_at 65) (from bob) alice 200 first.1

first_ok : first ≡ (ok (value_or nothing first.0), first.1)
unfolding all_payments
first_ok = returned nothing first refl

second_ok : second ≡ (ok (value_or nothing second.0), second.1)
unfolding all_payments
second_ok = returned nothing second refl

-- The same transfer a second earlier panics.
second_too_early :
    is_ok (execute_transfer demo_chain (block_at 59) (from bob) alice 200 first.1).0 ≡ false
unfolding all_payments
second_too_early = refl

execute_transfer_inflates_example :
    (held demo_store ≤ held first.1) × (first.1.token_info ≡ demo_store.token_info)
execute_transfer_inflates_example =
    execute_transfer_inflates demo_chain (block_at 5) (from alice) demo_store bob 300 demo_state
      refl (omega arith) first_ok

transfer_waits_example :
    (t : Timestamp) × (get_period_time_delta demo_chain demo_state.start_timestamp (0 + 1) 60
      ≡ ok t)
    × (demo_chain.seconds t ≤ demo_chain.seconds (block_at 65).block.time)
transfer_waits_example =
    transfer_waits demo_chain (block_at 5) (block_at 65) (from alice) (from bob) bob alice 300 200
      demo_store demo_state refl first_ok second_ok

abbrev burned : Outcome ContractError Response × Store
burned = execute_burn (block_at 5) (from alice) 400 demo_store

burn_takes : (0 < 400) × Taken alice 400 demo_store burned.1
unfolding execute_burn debit_account reduce_total_supply checked_sub may_load save bytes_beq
burn_takes =
    execute_burn_takes (block_at 5) (from alice) 400 demo_store (returned nothing burned refl)

execute_send_branches_example :
    execute_send demo_chain (block_at 5) (from alice) bob 1001 (bytes "hi") demo_store
    ≡ (err (std (overflow 1000 1001)), demo_store)
unfolding may_load bytes_beq
execute_send_branches_example =
    execute_send_branches demo_chain (block_at 5) (from alice) demo_store bob 1001 (bytes "hi") bob
      (bytes "hi") (omega arith) refl refl

-- The sender holds more than the supply: the failed burn has lowered its balance.
abbrev small_supply : Store
small_supply = record demo_store { token_info = some (record demo_token { total_supply = 100 }) }

execute_burn_branches_example :
    execute_burn (block_at 5) (from alice) 400 small_supply
    ≡ (err (std (overflow 100 400)), set_balance alice 600 small_supply)
unfolding may_load save bytes_beq
execute_burn_branches_example =
    execute_burn_branches (block_at 5) (from alice) small_supply 400
      (record demo_token { total_supply = 100 }) refl
