-- ===== src/Examples.antt =====
-- A chain, a contract and messages, on which the theorems are applied and the code is run.
pub mod Arithmetic
pub mod Opened
pub mod Payments
pub mod Accounts
pub mod Supply
pub mod Lifetime
pub mod Returns
pub mod Queries
pub mod Utils
pub mod ParseReply
pub mod Wrapper
pub mod Spenders
use demurrage_token.Base.{
  ℕ, ◌+◌, ◌*◌, ◌/◌, ◌^◌, ltb, if◌then◌else◌, Option, none, some, Bytes, bytes, List, [], ◌∷◌, Bool,
  true, false, ◌≡◌, refl, arith,
}
use demurrage_token.Outcome.{Outcome, ok, err, panic, value_or}
use demurrage_token.Outcome.Word.{mod64}
use demurrage_token.Std.{StdError, Addr, Timestamp, Env, MessageInfo, Response, response}
use demurrage_token.Cw20.{Cw20ReceiveMsg}
use demurrage_token.Chain.{Chain}
use demurrage_token.State.{ContractError, State, Store, TokenInfo, MinterData, empty_store}
use demurrage_token.Msg.{InstantiateMsg}

-- Every text is an address, a message is serialized as its payload, and time is in nanoseconds.
abbrev pub demo_chain : Chain
demo_chain = record {
  addr_validate = λ a. ok a;
  receive_to_binary = λ m. ok m.msg;
  response_to_binary = λ _. ok [];
  seconds = λ t. t / 10 ^ 9;
  plus_seconds = λ t n. if ltb (t + n * 10 ^ 9) mod64 then some (t + n * 10 ^ 9) else none;
}

abbrev pub alice : Addr
alice = bytes "alice"

abbrev pub bob : Addr
bob = bytes "bob"

abbrev pub sink : Addr
sink = bytes "sinkaddress"

-- The block at a number of seconds after 1,000,000.
abbrev pub block_at : ℕ → Env
block_at n = record { block = record { height = 100; time = (1000000 + n) * 10 ^ 9 } }

abbrev pub from : Addr → MessageInfo
from a = record { sender = a }

-- Periods of one minute, and the tax of the tests in the source.
abbrev pub demo_state : State
demo_state = record {
  start_timestamp = 1000000 * 10 ^ 9;
  demurrage_timestamp = 1000000 * 10 ^ 9;
  period_minute = 60;
  current_period = 0;
  demurrage_amount = 10 ^ 23;
  sink_address = sink;
  minimum_participant_spend = 1000;
  tax_level = 501059083733730000;
}

abbrev pub demo_token : TokenInfo
demo_token = record {
  name = bytes "Cash Token";
  symbol = bytes "CASH";
  decimals = 3;
  total_supply = 1000;
  mint = some (record { minter = alice; cap = some 5000 });
}

abbrev pub demo_store : Store
demo_store = record empty_store {
  token_info = some demo_token;
  balances = (alice, 1000) ∷ [];
  demurrage_state = some demo_state;
}

abbrev pub is_ok {ℓ κ} : {E : Type ℓ} {A : Type κ} → Outcome E A → Bool
is_ok (ok a) = true
is_ok (err e) = false
is_ok panic = false

abbrev pub nothing : Response
nothing = response []

-- A call that is seen to return, with its result and storage.
pub returned :
    {A : Type 0} (d : A) (p : Outcome ContractError A × Store)
    → is_ok p.0 ≡ true
    → p ≡ (ok (value_or d p.0), p.1)
returned d p h = ground arith
