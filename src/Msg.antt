-- ===== src/Msg.antt =====
-- src/msg.rs and src/query.rs: the messages of the contract, their validation, and the answers.
pub mod Validation
use Prim.Native.String.{String}
use demurrage_token.Base.{
  ℕ, ◌<◌, Bool, true, false, not, ◌&&◌, ◌||◌, ◌==◌, ltb, if◌then◌else◌, Option, none, some, List,
  [], ◌∷◌, Bytes, length,
}
use demurrage_token.Outcome.{Outcome, ok, err}
use demurrage_token.Std.{StdError, generic_err}
use demurrage_token.Expiration.{Expiration}
use demurrage_token.Cw20.{
  Cw20Coin, MinterResponse, BalanceResponse, TokenInfoResponse, AllowanceResponse,
  AllAllowancesResponse, AllAccountsResponse,
}

pub record InstantiateMsg : Type 0 where
  pub name : Bytes
  pub symbol : Bytes
  pub decimals : ℕ
  pub initial_balances : List Cw20Coin
  pub mint : Option MinterResponse
  pub tax_level_minute : ℕ
  pub period_minutes : ℕ
  pub supply_cap : ℕ
  pub sink_address : Bytes

-- `InstantiateMsg::get_cap`
abbrev pub get_cap : InstantiateMsg → Option ℕ
get_cap msg = elim msg.mint [ none ↦ none | some v ↦ v.cap ]

unfoldable pub is_valid_name : Bytes → Bool
is_valid_name name = if ltb (length name) 3 || ltb 50 (length name) then false else true

-- The test of the loop's body: 45 is `-`, and the ranges are `A-Z` and `a-z`.
unfoldable pub bad_symbol_byte : ℕ → Bool
bad_symbol_byte byte =
    not (byte == 45) && (ltb byte 65 || ltb 90 byte) && (ltb byte 97 || ltb 122 byte)

unfoldable pub symbol_bytes : List ℕ → Bool
symbol_bytes [] = true
symbol_bytes (byte ∷ rest) = if bad_symbol_byte byte then false else symbol_bytes rest

unfoldable pub is_valid_symbol : Bytes → Bool
is_valid_symbol symbol =
    if ltb (length symbol) 3 || ltb 12 (length symbol) then false else symbol_bytes symbol

-- `InstantiateMsg::validate`
unfoldable pub validate : InstantiateMsg → Outcome StdError (Unit {0})
validate msg =
    if not (is_valid_name msg.name)
    then err (generic_err "Name is not in the expected format (3-50 UTF-8 bytes)")
    else if not (is_valid_symbol msg.symbol)
    then err (generic_err "Ticker symbol is not in expected format [a-zA-Z\\-]{3,12}")
    else if ltb 18 msg.decimals
    then err (generic_err "Decimals must not exceed 18")
    else ok tt

pub data ExecuteMsg : Type 0 where
  transfer : (recipient : Bytes) (amount : ℕ) → ExecuteMsg
  burn : (amount : ℕ) → ExecuteMsg
  send : (contract : Bytes) (amount : ℕ) (msg : Bytes) → ExecuteMsg
  increase_allowance : (spender : Bytes) (amount : ℕ) (expires : Option Expiration) → ExecuteMsg
  decrease_allowance : (spender : Bytes) (amount : ℕ) (expires : Option Expiration) → ExecuteMsg
  transfer_from : (owner recipient : Bytes) (amount : ℕ) → ExecuteMsg
  send_from : (owner contract : Bytes) (amount : ℕ) (msg : Bytes) → ExecuteMsg
  burn_from : (owner : Bytes) (amount : ℕ) → ExecuteMsg
  mint : (recipient : Bytes) (amount : ℕ) → ExecuteMsg
  update_minter : (new_minter : Bytes) → ExecuteMsg
  change_sink_address : (address : Bytes) → ExecuteMsg
  change_tax_level : (amount : ℕ) → ExecuteMsg

pub data QueryMsg : Type 0 where
  balance : (address : Bytes) → QueryMsg
  token_info : QueryMsg
  minter : QueryMsg
  allowance : (owner spender : Bytes) → QueryMsg
  all_allowances : (owner : Bytes) (start_after : Option Bytes) (limit : Option ℕ) → QueryMsg
  all_accounts : (start_after : Option Bytes) (limit : Option ℕ) → QueryMsg
  demurrage_amount : QueryMsg
  tax_level : QueryMsg
  sink_account : QueryMsg

-- src/query.rs
pub record DemurrageAmountResponse : Type 0 where
  pub demurrage_amount : ℕ

pub record SinkAddressResponse : Type 0 where
  pub sink_address : Bytes

pub record TaxLevelResponse : Type 0 where
  pub tax_level : ℕ

-- What a query hands to `to_binary`.
pub data QueryResponse : Type 0 where
  balance_response : BalanceResponse → QueryResponse
  token_info_response : TokenInfoResponse → QueryResponse
  minter_response : Option MinterResponse → QueryResponse
  allowance_response : AllowanceResponse → QueryResponse
  all_allowances_response : AllAllowancesResponse → QueryResponse
  all_accounts_response : AllAccountsResponse → QueryResponse
  demurrage_amount_response : DemurrageAmountResponse → QueryResponse
  tax_level_response : TaxLevelResponse → QueryResponse
  sink_address_response : SinkAddressResponse → QueryResponse
