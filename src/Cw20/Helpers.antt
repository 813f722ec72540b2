-- ===== src/Cw20/Helpers.antt =====
-- packages/cw20/src/query.rs and helpers.rs: the questions of the cw20 interface, and the wrapper of
-- an address that another contract asks them with. What it calls of cosmwasm_std is a parameter: the
-- two serializations, the querier, and the reading of an answer at each type.
use demurrage_token.Base.{ℕ, Bool, true, false, Option, Bytes}
use demurrage_token.Outcome.{Outcome, ok, err, panic, ◌>>=◌}
use demurrage_token.Std.{StdError, Addr, CosmosMsg, wasm_execute}
use demurrage_token.Cw20.{BalanceResponse, TokenInfoResponse, AllowanceResponse, MinterResponse}
use demurrage_token.Cw20.Execute.{Cw20ExecuteMsg}

pub data Cw20QueryMsg : Type 0 where
  balance : (address : Bytes) → Cw20QueryMsg
  token_info : Cw20QueryMsg
  allowance : (owner spender : Bytes) → Cw20QueryMsg
  minter : Cw20QueryMsg
  all_allowances : (owner : Bytes) (start_after : Option Bytes) (limit : Option ℕ) → Cw20QueryMsg
  all_accounts : (start_after : Option Bytes) (limit : Option ℕ) → Cw20QueryMsg

-- `to_binary` of the messages, `QuerierWrapper::query` up to the bytes of the answer, and
-- `from_binary` of the answers.
pub record Querier : Type 1 where
  pub Binary : Type 0
  pub execute_to_binary : Cw20ExecuteMsg → Outcome StdError Bytes
  pub query_to_binary : Cw20QueryMsg → Outcome StdError Binary
  pub smart : Addr → Binary → Outcome StdError Binary
  pub balance_from : Binary → Outcome StdError BalanceResponse
  pub token_info_from : Binary → Outcome StdError TokenInfoResponse
  pub allowance_from : Binary → Outcome StdError AllowanceResponse
  pub minter_from : Binary → Outcome StdError (Option MinterResponse)

-- `is_ok`; a panic ends the call.
abbrev pub is_ok : {A : Type 0} → Outcome StdError A → Outcome StdError Bool
is_ok (ok a) = ok true
is_ok (err e) = ok false
is_ok panic = panic

pub record Cw20Contract : Type 0 where
  pub addr : Addr

module _ (q : Querier) (self : Cw20Contract) where
  unfoldable pub call : Cw20ExecuteMsg → Outcome StdError CosmosMsg
  call msg = do msg' ← q.execute_to_binary msg; ok (wasm_execute self.addr msg')

  -- The message is serialized and asked of the contract.
  abbrev ask : Cw20QueryMsg → Outcome StdError q.Binary
  ask msg = do msg' ← q.query_to_binary msg; q.smart self.addr msg'

  unfoldable pub get_balance : Bytes → Outcome StdError ℕ
  get_balance address = do
    answer ← ask (balance address)
    res ← q.balance_from answer
    ok res.balance

  unfoldable pub get_meta : Outcome StdError TokenInfoResponse
  get_meta = do answer ← ask token_info; q.token_info_from answer

  unfoldable pub get_allowance : Bytes → Bytes → Outcome StdError AllowanceResponse
  get_allowance owner spender = do answer ← ask (allowance owner spender); q.allowance_from answer

  unfoldable pub get_minter : Outcome StdError (Option MinterResponse)
  get_minter = do answer ← ask minter; q.minter_from answer

  unfoldable pub has_allowance : Outcome StdError Bool
  unfolding get_allowance
  has_allowance = is_ok (get_allowance self.addr self.addr)

  unfoldable pub is_mintable : Outcome StdError Bool
  unfolding get_minter
  is_mintable = is_ok get_minter
