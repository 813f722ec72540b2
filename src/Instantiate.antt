-- ===== src/Instantiate.antt =====
-- The entry point `instantiate` of src/contract.rs, with the accounts that it creates.
pub mod Accounts
pub mod Fresh
pub mod Rows
use demurrage_token.Base.{
  bytes_eq, ℕ, ◌+◌, ◌*◌, ◌^◌, ◌==◌, ltb, if◌then◌else◌, Bool, true, false, not, Option, none, some,
  Bytes, List, [], ◌∷◌, map, length,
}
use demurrage_token.Outcome.{Outcome, ok, err, panic, guard}
use demurrage_token.Outcome.Word.{add128, mul64, fits, mod32}
use demurrage_token.Exec.{pure, lift, raise_if, modify, ◌>>=◌, ◌>>◌}
use demurrage_token.Std.{StdError, generic_err, Env, MessageInfo, Response, response}
use demurrage_token.Cw20.{Cw20Coin, MinterResponse}
use demurrage_token.Chain.{Chain}
use demurrage_token.State.{
  ContractError, std, duplicate_initial_balance_addresses, ContractVersion, MinterData, TokenInfo,
  State, Store, Call, from_std,
}
use demurrage_token.Balances.{set_balance}
use demurrage_token.Ordered.{sort_by, dedup}
use demurrage_token.Period.{save_state}
use demurrage_token.Contract.{exceeds_cap, save_token_info}
use demurrage_token.Msg.{InstantiateMsg, get_cap, validate}

-- `set_contract_version(deps.storage, CONTRACT_NAME, CONTRACT_VERSION)?`; the version is that of
-- Cargo.toml.
abbrev pub contract_version : ContractVersion
contract_version = record { contract = "crates.io:cw20-base"; version = "0.1.0" }

unfoldable pub set_contract_version : Call (Unit {0})
set_contract_version = modify (λ s. record s { contract_version = some contract_version })

abbrev pub addresses_of : List Cw20Coin → List Bytes
addresses_of = map (λ (c : Cw20Coin). c.address)

unfoldable pub validate_accounts : List Cw20Coin → Outcome ContractError (Unit {0})
validate_accounts accounts =
    guard (length (dedup (sort_by (λ a. a) (addresses_of accounts))) == length accounts)
      duplicate_initial_balance_addresses

-- `base_ten.pow(msg.decimals)` in u32
unfoldable pub minimum_spend : ℕ → Outcome ContractError ℕ
minimum_spend decimals = fits mod32 (10 ^ decimals)

abbrev pub initial_amount : ℕ
initial_amount = 10 ^ 23

-- The state that is saved first.
abbrev pub initial_state : Env → InstantiateMsg → ℕ → ℕ → State
initial_state env msg period_duration spend = record {
  start_timestamp = env.block.time;
  demurrage_timestamp = env.block.time;
  period_minute = period_duration;
  current_period = 0;
  demurrage_amount = initial_amount;
  sink_address = msg.sink_address;
  minimum_participant_spend = spend;
  tax_level = msg.tax_level_minute;
}

module _ (chain : Chain) where
  -- The loop of `create_accounts`, with the supply so far.
  unfoldable pub create_rows : List Cw20Coin → ℕ → Call ℕ
  create_rows [] total_supply = pure total_supply
  create_rows (row ∷ rest) total_supply = do
    address ← from_std (chain.addr_validate row.address)
    modify (set_balance address row.amount)
    total_supply' ← lift (add128 total_supply row.amount)
    create_rows rest total_supply'

  unfoldable pub create_accounts : List Cw20Coin → Call ℕ
  create_accounts accounts = do lift (validate_accounts accounts); create_rows accounts 0

  unfoldable pub validate_minter : Option MinterResponse → Call (Option MinterData)
  validate_minter none = pure none
  validate_minter (some m) = do
    minter ← from_std (chain.addr_validate m.minter)
    pure (some (record { minter = minter; cap = m.cap }))

  unfoldable pub instantiate : Env → MessageInfo → InstantiateMsg → Call Response
  instantiate env info msg = do
    set_contract_version
    from_std (validate msg)
    total_supply ← create_accounts msg.initial_balances
    period_duration ← lift (mul64 msg.period_minutes 60)
    raise_if (exceeds_cap (get_cap msg) total_supply)
        (std (generic_err "Initial supply greater than cap"))
    spend ← lift (minimum_spend msg.decimals)
    save_state (initial_state env msg period_duration spend)
    mint ← validate_minter msg.mint
    save_token_info (record {
      name = msg.name;
      symbol = msg.symbol;
      decimals = msg.decimals;
      total_supply = total_supply;
      mint = mint;
    })
    pure (response [])
