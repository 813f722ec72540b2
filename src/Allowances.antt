-- ===== src/Allowances.antt =====
-- `ALLOWANCES` and the handlers of src/allowances.rs, with the two of src/contract.rs that raise
-- and lower an allowance. `deduct_allowance` stands in both files with the same text.
pub mod Deduct
pub mod Change
pub mod Lent
pub mod Refusals
use demurrage_token.Base.{
  bytes_eq, pair_eq, ℕ, ◌-◌, ◌=?◌, ltb, if◌then◌else◌, Bool, Option, none, some, Bytes, List, [],
  ◌∷◌,
}
use demurrage_token.Outcome
use demurrage_token.Outcome.{Outcome, ok, err, panic, map_err}
use demurrage_token.Outcome.Word.{add128}
use demurrage_token.Exec.{pure, lift, ok_or, raise_if, modify, ◌>>=◌, ◌>>◌}
use demurrage_token.Std.{
  StdError, not_found, Addr, BlockInfo, Env, MessageInfo, Response, response, response_with, attr,
  word, text, amount_of, CosmosMsg, wasm_execute,
}
use demurrage_token.Expiration.{Expiration, is_expired}
use demurrage_token.Cw20.{AllowanceResponse, default_allowance, Cw20ReceiveMsg}
use demurrage_token.Chain.{Chain}
use demurrage_token.State.{
  ContractError, std, unauthorized, cannot_set_own_account, expired, no_allowance, TokenInfo, Store,
  Call, from_std,
}
use demurrage_token.Storage.{may_load, save, remove, update}
use demurrage_token.Balances.{checked_sub, debit_account, credit_account}
use demurrage_token.Demurrage.{to_base_amount}
use demurrage_token.Period.{load_state}

-- `allow.unwrap_or_default()`
abbrev pub unwrap_allowance : Option AllowanceResponse → AllowanceResponse
unwrap_allowance none = default_allowance
unwrap_allowance (some a) = a

-- `ALLOWANCES.update(deps.storage, key, action)?`
abbrev pub allowances_update :
    Addr × Addr
    → (Option AllowanceResponse → Outcome ContractError AllowanceResponse)
    → Call AllowanceResponse
allowances_update key action s =
    let (r, m) = update key action s.allowances in (r, record s { allowances = m })

-- `if let Some(exp) = expires { val.expires = exp; }`
abbrev pub set_expires : Option Expiration → AllowanceResponse → AllowanceResponse
set_expires none val = val
set_expires (some exp) val = record val { expires = exp }

-- The closure of `deduct_allowance`.
unfoldable pub deducted :
    BlockInfo → ℕ → Option AllowanceResponse → Outcome ContractError AllowanceResponse
deducted block amount none = err no_allowance
deducted block amount (some a) =
    if is_expired a.expires block
    then err expired
    else Outcome.◌>>=◌ (map_err std (checked_sub a.allowance amount))
        λ left. ok (record a { allowance = left })

unfoldable pub deduct_allowance : Addr → Addr → BlockInfo → ℕ → Call AllowanceResponse
deduct_allowance owner spender block amount =
    allowances_update (owner, spender) (deducted block amount)

-- The closure of `execute_increase_allowance`, which adds the amount and its base amount.
unfoldable pub raised :
    Option Expiration → ℕ → ℕ → Option AllowanceResponse → Outcome ContractError AllowanceResponse
raised expires amount base_value allow =
    let val = set_expires expires (unwrap_allowance allow) in
    Outcome.◌>>=◌ (add128 amount base_value) λ increase.
      Outcome.◌>>=◌ (add128 val.allowance increase) λ total. ok (record val { allowance = total })

-- `ALLOWANCES.load(deps.storage, key)?`
abbrev pub load_allowance : Addr × Addr → Call AllowanceResponse
load_allowance key s = ok_or (std (not_found "AllowanceResponse")) (may_load key s.allowances) s

-- The two branches of `execute_decrease_allowance`.
unfoldable pub lower_allowance :
    Addr × Addr → ℕ → Option Expiration → AllowanceResponse → Call (Unit {0})
lower_allowance key amount expires allowance =
    if ltb amount allowance.allowance
    then (do
      left ← from_std (checked_sub allowance.allowance amount)
      modify (λ s. record s {
        allowances =
            save key (set_expires expires (record allowance { allowance = left })) s.allowances;
      }))
    else modify (λ s. record s { allowances = remove key s.allowances })

-- The closure of `TOKEN_INFO.update` in the two burns, and the load before it.
unfoldable pub reduce_total_supply : ℕ → Call TokenInfo
reduce_total_supply amount = do
  info ← (λ s. ok_or (std (not_found "TokenInfo")) s.token_info s)
  left ← from_std (checked_sub info.total_supply amount)
  let info' = record info { total_supply = left }
  modify (λ s. record s { token_info = some info' })
  pure info'

module _ (chain : Chain) where
  -- `Cw20ReceiveMsg::into_cosmos_msg`
  unfoldable pub into_cosmos_msg : Cw20ReceiveMsg → Bytes → Outcome StdError CosmosMsg
  into_cosmos_msg receive contract_addr =
      Outcome.◌>>=◌ (chain.receive_to_binary receive) λ msg. ok (wasm_execute contract_addr msg)

  unfoldable pub execute_increase_allowance :
      Env → MessageInfo → Bytes → ℕ → Option Expiration → Call Response
  execute_increase_allowance env info spender amount expires = do
    spender_addr ← from_std (chain.addr_validate spender)
    raise_if (spender_addr =? info.sender) cannot_set_own_account
    state ← load_state
    base_value ← lift (to_base_amount amount state.demurrage_amount)
    allowances_update (info.sender, spender_addr) (raised expires amount base_value)
    pure (
        response (
          attr "action" (word "increase_allowance")
          ∷ attr "owner" (text info.sender)
          ∷ attr "spender" (text spender)
          ∷ attr "amount" (amount_of amount)
          ∷ []))

  unfoldable pub execute_decrease_allowance :
      Env → MessageInfo → Bytes → ℕ → Option Expiration → Call Response
  execute_decrease_allowance env info spender amount expires = do
    spender_addr ← from_std (chain.addr_validate spender)
    raise_if (spender_addr =? info.sender) cannot_set_own_account
    allowance ← load_allowance (info.sender, spender_addr)
    lower_allowance (info.sender, spender_addr) amount expires allowance
    pure (
        response (
          attr "action" (word "decrease_allowance")
          ∷ attr "owner" (text info.sender)
          ∷ attr "spender" (text spender)
          ∷ attr "amount" (amount_of amount)
          ∷ []))

  unfoldable pub execute_burn_from : Env → MessageInfo → Bytes → ℕ → Call Response
  execute_burn_from env info owner amount = do
    owner_addr ← from_std (chain.addr_validate owner)
    deduct_allowance owner_addr info.sender env.block amount
    debit_account owner_addr amount
    reduce_total_supply amount
    pure (
        response (
          attr "action" (word "burn_from")
          ∷ attr "from" (text owner)
          ∷ attr "by" (text info.sender)
          ∷ attr "amount" (amount_of amount)
          ∷ []))

  unfoldable pub execute_send_from : Env → MessageInfo → Bytes → Bytes → ℕ → Bytes → Call Response
  execute_send_from env info owner contract amount msg = do
    rcpt_addr ← from_std (chain.addr_validate contract)
    owner_addr ← from_std (chain.addr_validate owner)
    deduct_allowance owner_addr info.sender env.block amount
    debit_account owner_addr amount
    credit_account rcpt_addr amount
    cosmos_msg ←
        from_std
          (into_cosmos_msg (record { sender = info.sender; amount = amount; msg = msg }) contract)
    pure (
        response_with cosmos_msg (
          attr "action" (word "send_from")
          ∷ attr "from" (text owner)
          ∷ attr "to" (text contract)
          ∷ attr "by" (text info.sender)
          ∷ attr "amount" (amount_of amount)
          ∷ []))

  unfoldable pub query_allowance : Bytes → Bytes → Store → Outcome StdError AllowanceResponse
  query_allowance owner spender s = Outcome.◌>>=◌ (chain.addr_validate owner) λ owner_addr.
      Outcome.◌>>=◌ (chain.addr_validate spender)
        λ spender_addr. ok (unwrap_allowance (may_load (owner_addr, spender_addr) s.allowances))
