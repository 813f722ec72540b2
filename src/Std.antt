-- ===== src/Std.antt =====
-- What the contract uses of cosmwasm_std's data: errors, addresses, blocks, messages, responses.
-- Printing a number into an attribute's text is not performed: the value keeps the number.
use Prim.Native.String.{String}
use demurrage_token.Base.{ℕ, List, [], ◌∷◌, Bytes}

-- The constructors of `StdError` that the contract builds: `generic_err`, the overflow of
-- `checked_sub` with its operands, and the `not_found` of a load.
pub data StdError : Type 0 where
  generic_err : String → StdError
  overflow : ℕ → ℕ → StdError
  not_found : String → StdError

-- An `Addr` is a text that was validated.
abbrev pub Addr : Type 0
Addr = Bytes

-- Nanoseconds since the epoch.
abbrev pub Timestamp : Type 0
Timestamp = ℕ

pub record BlockInfo : Type 0 where
  pub height : ℕ
  pub time : Timestamp

pub record Env : Type 0 where
  pub block : BlockInfo

pub record MessageInfo : Type 0 where
  pub sender : Addr

-- An amount of a native token.
pub record Coin : Type 0 where
  pub denom : Bytes
  pub amount : ℕ

pub data AttrValue : Type 0 where
  text : Bytes → AttrValue
  amount_of : ℕ → AttrValue
  word : String → AttrValue

pub record Attribute : Type 0 where
  pub key : String
  pub value : AttrValue

abbrev pub attr : String → AttrValue → Attribute
attr k v = record { key = k; value = v }

-- `WasmMsg::Execute` with no funds.
pub data CosmosMsg : Type 0 where
  wasm_execute : Addr → Bytes → CosmosMsg

pub record Response : Type 0 where
  pub messages : List CosmosMsg
  pub attributes : List Attribute

-- `Response::new().add_attribute(..)...`
abbrev pub response : List Attribute → Response
response attributes = record { messages = []; attributes = attributes }

abbrev pub response_with : CosmosMsg → List Attribute → Response
response_with msg attributes = record { messages = msg ∷ []; attributes = attributes }
