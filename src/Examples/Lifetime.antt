-- ===== src/Examples/Lifetime.antt =====
-- A contract from its instantiation over a mint, a transfer and a burn.
use demurrage_token.Base.{
  bytes_eq, pair_eq, ℕ, ◌+◌, ◌≡◌, ◌↔◌, bytes, refl, some, none, [], ◌∷◌, List, All, Bytes, arith,
}
use demurrage_token.Outcome.{Outcome, ok, value_or}
use demurrage_token.Std.{Response}
use demurrage_token.Cw20.{Cw20Coin}
use demurrage_token.State.{State, Store, ContractError, empty_store}
use demurrage_token.Balances.{balance_of}
use demurrage_token.Ordered.{dedup, sort_by, insert_by, bytes_leb}
use demurrage_token.Ordered.Laws.{Distinct}
use demurrage_token.Msg.{
  InstantiateMsg, ExecuteMsg, validate, is_valid_name, is_valid_symbol, symbol_bytes,
  bad_symbol_byte,
}
use demurrage_token.Contract.{execute}
use demurrage_token.Instantiate.{
  instantiate, create_accounts, create_rows, validate_accounts, validate_minter, minimum_spend,
  set_contract_version, addresses_of,
}
use demurrage_token.Instantiate.Rows.{ValidatesAsIs}
use demurrage_token.Instantiate.Fresh.{Started, instantiate-eq-ok}
use demurrage_token.Instantiate.Accounts.{validate_accounts_iff}
use demurrage_token.Msg.Validation.{IsWellFormed, validate_iff}
use demurrage_token.Payments.Totals.{held}
use demurrage_token.Payments.Conservation.{supply_of}
use demurrage_token.Queries.{page_limit}
use demurrage_token.Queries.Walk.{walk}
use demurrage_token.Queries.Accounts.{accounts_of, sorted_keys}
use demurrage_token.Reachable.Keys.{lifetime_pages}
use demurrage_token.Ledger.View.{minter_of}
use demurrage_token.Ledger.Accounts.{
  burned as burned_over, minted as minted_over, cap_of, Reach-supply,
}
use demurrage_token.Ledger.Loans.{lifetime_LendsToOthers}
use demurrage_token.Allowances.Deduct.{allowance_at}
use demurrage_token.Reachable.{Reach}
use demurrage_token.Reachable.Replay.{replay, Reach-replay}
use demurrage_token.Reachable.Clock.{StoredLater, periods, Reach-Later}
use demurrage_token.Reachable.Sound.{IsSound}
use demurrage_token.Reachable.Backed.{IsBacked}
use demurrage_token.Reachable.Lifetime.{instantiate_balances, lifetime_IsSound, lifetime_IsBacked}
use demurrage_token.Examples.Opened.{all_payments}
use demurrage_token.Examples.{
  demo_chain, demo_state, alice, bob, sink, from, block_at, returned, nothing,
}

abbrev pub two_accounts : List Cw20Coin
two_accounts =
    record { address = alice; amount = 700 } ∷ record { address = bob; amount = 300 } ∷ []

abbrev pub demo_msg : InstantiateMsg
demo_msg = record {
  name = bytes "Cash Token";
  symbol = bytes "CASH";
  decimals = 3;
  initial_balances = two_accounts;
  mint = some (record { minter = alice; cap = some 5000 });
  tax_level_minute = 501059083733730000;
  period_minutes = 1;
  supply_cap = 5000;
  sink_address = sink;
}

unfoldable pub all_instantiation : ℕ
unfolding instantiate create_accounts create_rows validate_accounts validate_minter minimum_spend
    set_contract_version validate is_valid_name is_valid_symbol symbol_bytes bad_symbol_byte dedup
    sort_by insert_by bytes_leb
all_instantiation = 0

abbrev pub new : Outcome ContractError Response × Store
new = instantiate demo_chain (block_at 0) (from alice) demo_msg empty_store

pub new_ok : new ≡ (ok (value_or nothing new.0), new.1)
unfolding all_payments all_instantiation
new_ok = returned nothing new refl

as_is : ValidatesAsIs demo_chain
as_is a b h = ground arith

abbrev pub call : Bytes → ℕ → ExecuteMsg → Store → Outcome ContractError Response × Store
call sender time msg s = execute demo_chain (block_at time) (from sender) msg s

abbrev minted : Store
minted = (call alice 5 (ExecuteMsg.mint bob 250) new.1).1

abbrev transferred : Store
transferred = (call bob 65 (ExecuteMsg.transfer alice 100) minted).1

abbrev burned : Store
burned = (call bob 66 (ExecuteMsg.burn 40) transferred).1

path : Reach demo_chain new.1 burned
unfolding all_payments all_instantiation
path =
    Reach.next (block_at 66) (from bob) (ExecuteMsg.burn 40) _
      (Reach.next (block_at 65) (from bob) (ExecuteMsg.transfer alice 100) _
        (Reach.next (block_at 5) (from alice) (ExecuteMsg.mint bob 250) _ Reach.here
          (returned nothing (call alice 5 (ExecuteMsg.mint bob 250) new.1) refl))
        (returned nothing (call bob 65 (ExecuteMsg.transfer alice 100) minted) refl))
      (returned nothing (call bob 66 (ExecuteMsg.burn 40) transferred) refl)

-- The supply counts what was minted and burned, and the balances hold no less.
supply_after : supply_of burned ≡ 1210
unfolding all_payments all_instantiation
supply_after = refl

instantiate_balances_example :
    (held new.1 ≡ supply_of new.1)
    × All (λ (c : Cw20Coin). balance_of new.1 c.address ≡ c.amount) two_accounts
instantiate_balances_example =
    instantiate_balances demo_chain (block_at 0) (from alice) demo_msg new_ok as_is

lifetime_IsSound_example : IsSound burned
lifetime_IsSound_example =
    lifetime_IsSound demo_chain (block_at 0) (from alice) demo_msg new_ok path

lifetime_IsBacked_example : IsBacked burned
lifetime_IsBacked_example =
    lifetime_IsBacked demo_chain (block_at 0) (from alice) demo_msg new_ok as_is path

instantiate-eq-ok_example : Started demo_chain (block_at 0) demo_msg new.1
instantiate-eq-ok_example = instantiate-eq-ok demo_chain (block_at 0) (from alice) demo_msg new_ok

validate_accounts_iff_example :
    (validate_accounts two_accounts ≡ ok tt) ↔ (Distinct (addresses_of two_accounts))
validate_accounts_iff_example = validate_accounts_iff two_accounts

validate_iff_example : (validate demo_msg ≡ ok tt) ↔ IsWellFormed demo_msg
validate_iff_example = validate_iff demo_msg

abbrev start_state : State
start_state = elim new.1.demurrage_state [ none ↦ demo_state | some state ↦ state ]

started : new.1.demurrage_state ≡ some start_state
unfolding all_payments all_instantiation
started = refl

Reach-Later_example : StoredLater (periods demo_chain path) start_state burned
Reach-Later_example = Reach-Later demo_chain start_state started path

-- One account to a page.
lifetime_pages_example :
    (walk 5 (accounts_of (some 1) burned) none ≡ sorted_keys burned) × Distinct (sorted_keys burned)
unfolding all_payments all_instantiation
lifetime_pages_example =
    lifetime_pages demo_chain (block_at 0) (from alice) demo_msg new_ok path 5 (some 1)
      (unfold page_limit in omega arith) (omega arith)

Reach-supply_example :
    (supply_of burned + burned_over demo_chain path ≡ supply_of new.1 + minted_over demo_chain path)
    × (cap_of (minter_of burned) ≡ cap_of (minter_of new.1))
Reach-supply_example = Reach-supply demo_chain path

lifetime_LendsToOthers_example : allowance_at (bob, bob) burned ≡ none
lifetime_LendsToOthers_example =
    lifetime_LendsToOthers demo_chain (block_at 0) (from alice) demo_msg new_ok path bob

Reach-replay_example : burned.demurrage_state ≡ some (replay demo_chain path start_state)
Reach-replay_example = Reach-replay demo_chain start_state started path
