-- ===== src/State.antt =====
-- src/state.rs and src/error.rs: what the contract keeps in its storage, and its errors.
use Prim.Native.String.{String}
use demurrage_token.Base.{ℕ, Option, none, some, Bytes, []}
use demurrage_token.Outcome.{Outcome, map_err}
use demurrage_token.Exec
use demurrage_token.Std.{StdError, Addr, Timestamp}
use demurrage_token.Cw20.{AllowanceResponse}
use demurrage_token.Storage.{Map}

pub data ContractError : Type 0 where
  std : StdError → ContractError
  unauthorized : ContractError
  cannot_set_own_account : ContractError
  invalid_zero_amount : ContractError
  expired : ContractError
  no_allowance : ContractError
  cannot_exceed_cap : ContractError
  logo_too_big : ContractError
  invalid_xml_preamble : ContractError
  invalid_png_header : ContractError
  duplicate_initial_balance_addresses : ContractError

pub record MinterData : Type 0 where
  pub minter : Addr
  pub cap : Option ℕ

pub record TokenInfo : Type 0 where
  pub name : Bytes
  pub symbol : Bytes
  pub decimals : ℕ
  pub total_supply : ℕ
  pub mint : Option MinterData

-- `TokenInfo::get_cap`
abbrev pub get_cap : TokenInfo → Option ℕ
get_cap info = elim info.mint [ none ↦ none | some data' ↦ data'.cap ]

pub record State : Type 0 where
  pub start_timestamp : Timestamp
  pub demurrage_timestamp : Timestamp
  pub period_minute : ℕ
  pub current_period : ℕ
  pub demurrage_amount : ℕ
  pub sink_address : Bytes
  pub minimum_participant_spend : ℕ
  pub tax_level : ℕ

-- `State::get_current_period`
abbrev pub get_current_period : State → ℕ
get_current_period state = state.current_period

-- cw2's `ContractVersion`.
pub record ContractVersion : Type 0 where
  pub contract : String
  pub version : String

-- The contract's storage: the items and maps that state.rs declares, and cw2's `CONTRACT`.
pub record Store : Type 0 where
  pub contract_version : Option ContractVersion
  pub token_info : Option TokenInfo
  pub balances : Map Addr ℕ
  pub allowances : Map (Addr × Addr) AllowanceResponse
  pub demurrage_state : Option State

-- The storage of a contract that was not instantiated.
abbrev pub empty_store : Store
empty_store = record {
  contract_version = none;
  token_info = none;
  balances = [];
  allowances = [];
  demurrage_state = none;
}

-- A call of the contract: it reads and writes the storage.
abbrev pub Call : Type 0 → Type 0
Call A = Exec.Exec Store ContractError A

-- `?` on a `StdResult`.
abbrev pub from_std : {A : Type 0} → Outcome StdError A → Call A
from_std r = Exec.lift (map_err std r)
