-- ===== src/Examples/Accounts.antt =====
-- Allowances on the demo contract.
use demurrage_token.Base.{
  ◌=?◌, if◌then◌else◌, bytes_eq, bytes_iff, bytes_beq, ◌+◌, ◌*◌, ◌-◌, ◌≤◌, ◌≡◌, ◌≢◌, ◌⊎◌, true,
  false, refl, some, none, [], ◌∷◌, arith,
}
use demurrage_token.Outcome.{Outcome, ok, err}
use demurrage_token.Std.{Addr, Response, overflow}
use demurrage_token.State.{Store, ContractError, no_allowance, std}
use demurrage_token.Expiration.{at_height, is_expired}
use demurrage_token.Cw20.{AllowanceResponse}
use demurrage_token.Allowances.{
  execute_increase_allowance, execute_decrease_allowance, execute_burn_from, execute_send_from,
  unwrap_allowance, deduct_allowance,
}
use demurrage_token.Allowances.Deduct.{allowance_at, deduct_allowance_lem}
use demurrage_token.Allowances.Change.{
  base_allowance, execute_increase_allowance_inflates, execute_decrease_allowance_left,
}
use demurrage_token.Balances.{balance_of}
use demurrage_token.Payments.Totals.{held}
use demurrage_token.Payments.Conservation.{
  Taken, execute_burn_from_takes, execute_send_from_conserves,
}
use demurrage_token.Ledger.{LedgerStep}
use demurrage_token.Ledger.View.{view}
use demurrage_token.Ledger.Spending.{usable, taken, granted, Reach-taken}
use demurrage_token.Ledger.Refines.{execute-LedgerStep}
use demurrage_token.Reachable.Owners.{SpentAllowance, execute_owners}
use demurrage_token.Reachable.Losses.{Reach-lent_by}
use demurrage_token.Reachable.{Reach}
use demurrage_token.Allowances.Lent.{lent_by}
use demurrage_token.Allowances.Refusals.{execute_refused}
use demurrage_token.Msg.{ExecuteMsg}
use demurrage_token.Contract.{execute}
use demurrage_token.Examples.Opened.{all_payments}
use demurrage_token.Examples.{
  sink, demo_chain, demo_store, demo_state, alice, bob, from, block_at, returned, nothing,
}

-- Alice lets Bob use 500 up to block 200.
abbrev lent : AllowanceResponse
lent = record { allowance = 500; expires = at_height 200 }

abbrev lent_store : Store
lent_store = record demo_store { allowances = ((alice, bob), lent) ∷ [] }

bob_not_alice : bob ≢ alice
unfolding bytes_beq
bob_not_alice e = let h : bytes_beq bob alice ≡ true = (bytes_iff bob alice).1 e in cc

abbrev burned : Outcome ContractError Response × Store
burned = execute_burn_from demo_chain (block_at 5) (from bob) alice 200 lent_store

burn_takes :
    (owner_addr : Addr) × (before : AllowanceResponse) × (demo_chain.addr_validate alice
      ≡ ok owner_addr)
    × (allowance_at (owner_addr, bob) lent_store ≡ some before)
    × (is_expired before.expires (block_at 5).block ≡ false)
    × (200 ≤ before.allowance)
    × (allowance_at (owner_addr, bob) burned.1
        ≡ some (record before { allowance = before.allowance - 200 }))
    × Taken owner_addr 200 lent_store burned.1
unfolding all_payments
burn_takes =
    execute_burn_from_takes demo_chain (block_at 5) (from bob) alice 200 lent_store
      (returned nothing burned refl)

-- Nobody lent Alice anything.
nothing_lent :
    deduct_allowance bob alice (block_at 5).block 200 lent_store ≡ (err no_allowance, lent_store)
unfolding all_payments
nothing_lent = deduct_allowance_lem bob alice (block_at 5).block 200 lent_store

abbrev increased : Outcome ContractError Response × Store
increased = execute_increase_allowance demo_chain (block_at 5) (from alice) bob 70 none lent_store

execute_increase_allowance_inflates_example :
    (to : Addr) × (a : AllowanceResponse) × (demo_chain.addr_validate bob ≡ ok to)
    × (allowance_at (alice, to) increased.1 ≡ some a)
    × ((base_allowance demo_chain (block_at 5) (from alice) bob 70 none lent_store to).allowance
          + 2 * 70
        ≤ a.allowance)
unfolding all_payments
execute_increase_allowance_inflates_example =
    execute_increase_allowance_inflates demo_chain (block_at 5) (from alice) bob 70 none lent_store
      demo_state refl (omega arith) (returned nothing increased refl)

lowered :
    (unwrap_allowance (
      allowance_at
        (alice, bob)
        (execute_decrease_allowance demo_chain
          (block_at 5)
          (from alice)
          bob
          120
          none
          lent_store).1)).allowance
    ≡ 500 - 120
unfolding all_payments
lowered =
    execute_decrease_allowance_left demo_chain (block_at 5) (from alice) bob 120 none lent_store bob
      lent refl bob_not_alice refl

abbrev sent : Outcome ContractError Response × Store
sent = execute_send_from demo_chain (block_at 5) (from bob) alice sink 200 [] lent_store

send_keeps_all :
    (owner_addr to : Addr) × (before : AllowanceResponse) × (demo_chain.addr_validate alice
      ≡ ok owner_addr)
    × (demo_chain.addr_validate sink ≡ ok to)
    × (allowance_at (owner_addr, bob) lent_store ≡ some before)
    × (is_expired before.expires (block_at 5).block ≡ false)
    × (200 ≤ before.allowance)
    × (allowance_at (owner_addr, bob) sent.1
        ≡ some (record before { allowance = before.allowance - 200 }))
    × ((j : Addr)
        → balance_of sent.1 j + (if owner_addr =? j then 200 else 0)
          ≡ balance_of lent_store j + (if to =? j then 200 else 0))
    × (held sent.1 ≡ held lent_store)
    × (sent.1.token_info ≡ lent_store.token_info)
unfolding all_payments
send_keeps_all =
    execute_send_from_conserves demo_chain (block_at 5) (from bob) lent_store alice sink 200 []
      (returned nothing sent refl)

abbrev spent : Outcome ContractError Response × Store
spent =
    execute demo_chain (block_at 5) (from bob) (ExecuteMsg.send_from alice sink 200 []) lent_store

execute_owners_example :
    (alice ≡ bob) ⊎ SpentAllowance alice bob (block_at 5).block lent_store spent.1
unfolding all_payments
execute_owners_example =
    execute_owners demo_chain (block_at 5) (from bob) (ExecuteMsg.send_from alice sink 200 [])
      lent_store (returned nothing spent refl) alice (omega arith)

execute-LedgerStep_example :
    LedgerStep demo_chain
      (block_at 5)
      (from bob)
      (ExecuteMsg.send_from alice sink 200 [])
      (view lent_store)
      (view spent.1)
unfolding all_payments
execute-LedgerStep_example =
    execute-LedgerStep demo_chain (block_at 5) (from bob) (ExecuteMsg.send_from alice sink 200 [])
      lent_store (returned nothing spent refl)

-- Bob sends 200 of Alice's and then burns 100.
abbrev spent_more : Outcome ContractError Response × Store
spent_more = execute demo_chain (block_at 6) (from bob) (ExecuteMsg.burn_from alice 100) spent.1

abbrev bobs_path : Reach demo_chain lent_store spent_more.1
unfolding all_payments
bobs_path =
    Reach.next (block_at 6) (from bob) (ExecuteMsg.burn_from alice 100) _
      (Reach.next (block_at 5) (from bob) (ExecuteMsg.send_from alice sink 200 []) _ Reach.here
        (returned nothing spent refl))
      (returned nothing spent_more refl)

Reach-lent_by_example :
    balance_of lent_store alice + lent_by alice spent_more.1.allowances
    ≤ balance_of spent_more.1 alice + lent_by alice lent_store.allowances
unfolding all_payments bytes_beq
Reach-lent_by_example = Reach-lent_by demo_chain alice bobs_path refl

-- Bob wants 600, and may take 500.
execute_refused_example :
    (execute demo_chain (block_at 5) (from bob) (ExecuteMsg.transfer_from alice bob 600) lent_store
      ≡ (err (std (overflow 500 600)), lent_store))
    × (execute demo_chain
          (block_at 5)
          (from bob)
          (ExecuteMsg.send_from alice sink 600 [])
          lent_store
        ≡ (err (std (overflow 500 600)), lent_store))
    × (execute demo_chain (block_at 5) (from bob) (ExecuteMsg.burn_from alice 600) lent_store
        ≡ (err (std (overflow 500 600)), lent_store))
unfolding all_payments bytes_beq
execute_refused_example =
    execute_refused demo_chain (block_at 5) (from bob) lent_store alice bob sink 600 [] alice bob
      sink (std (overflow 500 600)) refl refl refl refl

Reach-taken_example :
    taken demo_chain alice bob bobs_path + usable (alice, bob) (view spent_more.1)
    ≤ usable (alice, bob) (view lent_store) + granted demo_chain alice bob bobs_path
Reach-taken_example = Reach-taken demo_chain alice bob bobs_path

-- All of the 500 that Bob may take are accounted for.
taken_of_500 : taken demo_chain alice bob bobs_path + usable (alice, bob) (view spent_more.1) ≡ 500
unfolding all_payments bytes_beq
taken_of_500 = refl
