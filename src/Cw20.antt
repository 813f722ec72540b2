-- ===== src/Cw20.antt =====
-- packages/cw20/src: the records that the contract takes, stores and returns, and the message
-- that `Send` delivers to the receiving contract.
pub mod Balance
pub mod Execute
pub mod Helpers
use demurrage_token.Base.{Bool, ◌==◌, ℕ, Option, Bytes, List}
use demurrage_token.Std.{Addr}
use demurrage_token.Expiration.{Expiration, default_expiration}

-- coin.rs
pub record Cw20Coin : Type 0 where
  pub address : Bytes
  pub amount : ℕ

unfoldable pub is_empty : Cw20Coin → Bool
is_empty coin = coin.amount == 0

-- The same with an address that was validated.
pub record Cw20CoinVerified : Type 0 where
  pub address : Addr
  pub amount : ℕ

-- query.rs
pub record BalanceResponse : Type 0 where
  pub balance : ℕ

pub record TokenInfoResponse : Type 0 where
  pub name : Bytes
  pub symbol : Bytes
  pub decimals : ℕ
  pub total_supply : ℕ

pub record AllowanceResponse : Type 0 where
  pub allowance : ℕ
  pub expires : Expiration

-- `derive(Default)`
abbrev pub default_allowance : AllowanceResponse
default_allowance = record { allowance = 0; expires = default_expiration }

pub record MinterResponse : Type 0 where
  pub minter : Bytes
  pub cap : Option ℕ

pub record AllowanceInfo : Type 0 where
  pub spender : Bytes
  pub allowance : ℕ
  pub expires : Expiration

pub record AllAllowancesResponse : Type 0 where
  pub allowances : List AllowanceInfo

pub record AllAccountsResponse : Type 0 where
  pub accounts : List Bytes

-- receiver.rs
pub record Cw20ReceiveMsg : Type 0 where
  pub sender : Bytes
  pub amount : ℕ
  pub msg : Bytes
