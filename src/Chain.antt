-- ===== src/Chain.antt =====
-- What the contract calls of cosmwasm_std, which is not part of the repository: validation of
-- addresses, serialization, and the two operations on timestamps.
use demurrage_token.Base.{ℕ, Option, Bytes}
use demurrage_token.Outcome.{Outcome}
use demurrage_token.Std.{StdError, Addr, Timestamp}
use demurrage_token.Cw20.{Cw20ReceiveMsg}
use demurrage_token.Msg.{QueryResponse}

pub record Chain : Type 0 where
  -- `deps.api.addr_validate`
  pub addr_validate : Bytes → Outcome StdError Addr
  -- `to_binary` of `ReceiverExecuteMsg::Receive(msg)`
  pub receive_to_binary : Cw20ReceiveMsg → Outcome StdError Bytes
  -- `to_binary` of what a query answers
  pub response_to_binary : QueryResponse → Outcome StdError Bytes
  -- `Timestamp::seconds`
  pub seconds : Timestamp → ℕ
  -- `Timestamp::plus_seconds`; none where it panics on overflow
  pub plus_seconds : Timestamp → ℕ → Option Timestamp
