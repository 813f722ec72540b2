-- ===== src/Queries.antt =====
-- The queries of src/contract.rs and src/enumerable.rs, and the entry point `query`. A query
-- reads the storage and changes nothing. `StdResult` is an `Outcome` with `StdError`.
pub mod Pages
pub mod Walk
pub mod Accounts
pub mod Entries
pub mod Spenders
pub mod Client
use demurrage_token.Base.{
  bytes_eq, ℕ, ◌=?◌, ◌&&◌, if◌then◌else◌, leb, Bool, true, Option, none, some, Bytes, List, [], ◌∷◌,
  map, take,
}
use demurrage_token.Outcome.{Outcome, ok, err, ◌>>=◌}
use demurrage_token.Std.{StdError, not_found, Addr}
use demurrage_token.Cw20.{
  BalanceResponse, TokenInfoResponse, MinterResponse, AllowanceResponse, AllowanceInfo,
  AllAllowancesResponse, AllAccountsResponse,
}
use demurrage_token.Chain.{Chain}
use demurrage_token.State.{MinterData, TokenInfo, State, Store}
use demurrage_token.Storage.{Map}
use demurrage_token.Ordered.{bytes_ltb, sort_by}
use demurrage_token.Balances.{balance_of}
use demurrage_token.Allowances.{query_allowance}
use demurrage_token.Msg.{
  QueryMsg, QueryResponse, DemurrageAmountResponse, SinkAddressResponse, TaxLevelResponse,
  balance_response, token_info_response, minter_response, allowance_response,
  all_allowances_response, all_accounts_response, demurrage_amount_response, tax_level_response,
  sink_address_response,
}

-- `load` of an item: an error where it was never saved.
abbrev pub load_item {ℓ} : {A : Type ℓ} → StdError → Option A → Outcome StdError A
load_item e none = err e
load_item e (some a) = ok a

abbrev pub saved_state : Store → Outcome StdError State
saved_state s = load_item (not_found "State") s.demurrage_state

abbrev pub saved_token_info : Store → Outcome StdError TokenInfo
saved_token_info s = load_item (not_found "TokenInfo") s.token_info

unfoldable pub query_tax_level : Store → Outcome StdError TaxLevelResponse
query_tax_level s = do state ← saved_state s; ok (record { tax_level = state.tax_level })

unfoldable pub query_sink_address : Store → Outcome StdError SinkAddressResponse
query_sink_address s = do state ← saved_state s; ok (record { sink_address = state.sink_address })

unfoldable pub query_demurrage_amount : Store → Outcome StdError DemurrageAmountResponse
query_demurrage_amount s = do
  state ← saved_state s
  ok (record { demurrage_amount = state.demurrage_amount })

unfoldable pub query_token_info : Store → Outcome StdError TokenInfoResponse
query_token_info s = do
  info ← saved_token_info s
  ok (record {
    name = info.name;
    symbol = info.symbol;
    decimals = info.decimals;
    total_supply = info.total_supply;
  })

unfoldable pub minter_answer : Option MinterData → Option MinterResponse
minter_answer none = none
minter_answer (some m) = some (record { minter = m.minter; cap = m.cap })

unfoldable pub query_minter : Store → Outcome StdError (Option MinterResponse)
query_minter s = do meta ← saved_token_info s; ok (minter_answer meta.mint)

abbrev pub max_limit : ℕ
max_limit = 30

abbrev pub default_limit : ℕ
default_limit = 10

-- `limit.unwrap_or(DEFAULT_LIMIT).min(MAX_LIMIT)`
unfoldable pub page_limit : Option ℕ → ℕ
page_limit none = default_limit
page_limit (some n) = if leb n max_limit then n else max_limit

-- The keys behind an exclusive lower bound.
unfoldable pub after_start : Option Bytes → Bytes → Bool
after_start none key = true
after_start (some start) key = bytes_ltb start key

module _ {ℓ} {A : Type ℓ} (key : A → Bytes) where
  unfoldable pub keep_after : Option Bytes → List A → List A
  keep_after start [] = []
  keep_after start (a ∷ r) =
      let rest = keep_after start r in if after_start start (key a) then a ∷ rest else rest

  -- `range(storage, start, None, Order::Ascending).take(limit)` over the entries of a map
  unfoldable pub page : Option Bytes → ℕ → List A → List A
  unfolding keep_after
  page start limit entries = take limit (keep_after start (sort_by key entries))

-- `ALLOWANCES.prefix(&owner)`: the entries of one owner, under their spenders.
unfoldable pub allowances_of : Addr → Map (Addr × Addr) AllowanceResponse → List AllowanceInfo
allowances_of owner [] = []
allowances_of owner ((k, a) ∷ m) =
    let rest = allowances_of owner m in
    if k.0 =? owner
    then record { spender = k.1; allowance = a.allowance; expires = a.expires } ∷ rest
    else rest

unfoldable pub query_all_accounts :
    Option Bytes → Option ℕ → Store → Outcome StdError AllAccountsResponse
query_all_accounts start_after limit s = ok (record {
  accounts = page (λ a. a) start_after (page_limit limit) (map (λ (e : Addr × ℕ). e.0) s.balances);
})

module _ (chain : Chain) where
  unfoldable pub query_balance : Bytes → Store → Outcome StdError BalanceResponse
  query_balance address s = do
    address' ← chain.addr_validate address
    ok (record { balance = balance_of s address' })

  unfoldable pub query_all_allowances :
      Bytes → Option Bytes → Option ℕ → Store → Outcome StdError AllAllowancesResponse
  query_all_allowances owner start_after limit s = do
    owner_addr ← chain.addr_validate owner
    ok (record {
      allowances =
          page (λ (info : AllowanceInfo). info.spender) start_after (page_limit limit)
            (allowances_of owner_addr s.allowances);
    })

  -- The answer before `to_binary`.
  unfoldable pub answer : QueryMsg → Store → Outcome StdError QueryResponse
  answer (QueryMsg.balance address) s = do r ← query_balance address s; ok (balance_response r)
  answer QueryMsg.token_info s = do r ← query_token_info s; ok (token_info_response r)
  answer QueryMsg.minter s = do r ← query_minter s; ok (minter_response r)
  answer (QueryMsg.allowance owner spender) s = do
    r ← query_allowance chain owner spender s
    ok (allowance_response r)
  answer (QueryMsg.all_allowances owner start_after limit) s = do
    r ← query_all_allowances owner start_after limit s
    ok (all_allowances_response r)
  answer (QueryMsg.all_accounts start_after limit) s = do
    r ← query_all_accounts start_after limit s
    ok (all_accounts_response r)
  answer QueryMsg.demurrage_amount s = do
    r ← query_demurrage_amount s
    ok (demurrage_amount_response r)
  answer QueryMsg.tax_level s = do r ← query_tax_level s; ok (tax_level_response r)
  answer QueryMsg.sink_account s = do r ← query_sink_address s; ok (sink_address_response r)

  unfoldable pub query : QueryMsg → Store → Outcome StdError Bytes
  query msg s = answer msg s >>= chain.response_to_binary
