-- ===== src/Contract.antt =====
-- The handlers of src/contract.rs and its entry point `execute`.
use demurrage_token.Base.{
  bytes_eq, ℕ, ◌==◌, ◌=?◌, ltb, Bool, false, not, Option, none, some, Bytes, [], ◌∷◌,
}
use demurrage_token.Outcome.Word.{add128}
use demurrage_token.Exec.{pure, lift, ok_or, raise_if, modify, ◌>>=◌, ◌>>◌}
use demurrage_token.Std.{
  Env, MessageInfo, Response, response, response_with, attr, word, text, amount_of,
}
use demurrage_token.Chain.{Chain}
use demurrage_token.State.{
  unauthorized, invalid_zero_amount, cannot_exceed_cap, TokenInfo, get_cap, Call, from_std,
}
use demurrage_token.Balances.{debit_account, credit_account}
use demurrage_token.Demurrage.{to_base_amount}
use demurrage_token.Period.{load_state, load_token_info, save_state, change_period}
use demurrage_token.Msg.{ExecuteMsg}
use demurrage_token.Allowances.{
  deduct_allowance, reduce_total_supply, into_cosmos_msg, execute_increase_allowance,
  execute_decrease_allowance, execute_burn_from, execute_send_from,
}

-- `TOKEN_INFO.save(deps.storage, &config)?`
abbrev pub save_token_info : TokenInfo → Call (Unit {0})
save_token_info config = modify (λ s. record s { token_info = some config })

-- Whoever sends the message may set the level.
unfoldable pub execute_change_tax_level : ℕ → Call Response
execute_change_tax_level amount = do
  state ← load_state
  save_state (record state { tax_level = amount })
  pure (
      response
        (attr "action" (word "change tax level") ∷ attr "new tax amount" (amount_of amount) ∷ []))

unfoldable pub execute_change_sink_address : Bytes → Call Response
execute_change_sink_address sink_addr = do
  state ← load_state
  save_state (record state { sink_address = sink_addr })
  pure (
      response
        (attr "action" (word "change sink address") ∷ attr "new address" (text sink_addr) ∷ []))

unfoldable pub execute_burn : Env → MessageInfo → ℕ → Call Response
execute_burn env info amount = do
  raise_if (amount == 0) invalid_zero_amount
  debit_account info.sender amount
  reduce_total_supply amount
  pure (
      response (
        attr "action" (word "burn")
        ∷ attr "from" (text info.sender)
        ∷ attr "amount" (amount_of amount)
        ∷ []))

-- `config.total_supply > limit`, where a limit is set.
unfoldable pub exceeds_cap : Option ℕ → ℕ → Bool
exceeds_cap none supply = false
exceeds_cap (some limit) supply = ltb limit supply

module _ (chain : Chain) where
  unfoldable pub execute_transfer : Env → MessageInfo → Bytes → ℕ → Call Response
  execute_transfer env info recipient amount = do
    state ← load_state
    changed ← change_period chain env state
    base_value ← lift (to_base_amount amount changed.1.demurrage_amount)
    raise_if (amount == 0) invalid_zero_amount
    rcpt_addr ← from_std (chain.addr_validate recipient)
    debit_account info.sender amount
    credit_account rcpt_addr base_value
    pure (
        response (
          attr "action" (word "transfer")
          ∷ attr "from" (text info.sender)
          ∷ attr "to" (text recipient)
          ∷ attr "amount" (amount_of amount)
          ∷ []))

  unfoldable pub execute_transfer_from : Env → MessageInfo → Bytes → Bytes → ℕ → Call Response
  execute_transfer_from env info owner recipient amount = do
    rcpt_addr ← from_std (chain.addr_validate recipient)
    owner_addr ← from_std (chain.addr_validate owner)
    deduct_allowance owner_addr info.sender env.block amount
    state ← load_state
    changed ← change_period chain env state
    base_value ← lift (to_base_amount amount changed.1.demurrage_amount)
    debit_account owner_addr amount
    credit_account rcpt_addr base_value
    pure (
        response (
          attr "action" (word "transfer")
          ∷ attr "from" (text owner)
          ∷ attr "to" (text recipient)
          ∷ attr "amount" (amount_of amount)
          ∷ []))

  unfoldable pub execute_mint : Env → MessageInfo → Bytes → ℕ → Call Response
  execute_mint env info recipient amount = do
    raise_if (amount == 0) invalid_zero_amount
    config ← load_token_info
    state ← load_state
    minter_data ← ok_or unauthorized config.mint
    raise_if (not (minter_data.minter =? info.sender)) unauthorized
    total_supply ← lift (add128 config.total_supply amount)
    raise_if (exceeds_cap (get_cap config) total_supply) cannot_exceed_cap
    save_token_info (record config { total_supply = total_supply })
    changed ← change_period chain env state
    base_value ← lift (to_base_amount amount changed.1.demurrage_amount)
    rcpt_addr ← from_std (chain.addr_validate recipient)
    credit_account rcpt_addr base_value
    pure (
        response (
          attr "action" (word "mint")
          ∷ attr "to" (text recipient)
          ∷ attr "amount" (amount_of amount)
          ∷ []))

  unfoldable pub execute_send : Env → MessageInfo → Bytes → ℕ → Bytes → Call Response
  execute_send env info contract amount msg = do
    raise_if (amount == 0) invalid_zero_amount
    rcpt_addr ← from_std (chain.addr_validate contract)
    debit_account info.sender amount
    credit_account rcpt_addr amount
    cosmos_msg ← from_std (
        into_cosmos_msg chain (record { sender = info.sender; amount = amount; msg = msg })
          contract)
    pure (
        response_with cosmos_msg (
          attr "action" (word "send")
          ∷ attr "from" (text info.sender)
          ∷ attr "to" (text contract)
          ∷ attr "amount" (amount_of amount)
          ∷ []))

  unfoldable pub execute_update_minter : Env → MessageInfo → Bytes → Call Response
  execute_update_minter env info new_minter = do
    config ← load_token_info
    mint ← ok_or unauthorized config.mint
    raise_if (not (mint.minter =? info.sender)) unauthorized
    minter ← from_std (chain.addr_validate new_minter)
    save_token_info (record config { mint = some (record { minter = minter; cap = mint.cap }) })
    pure
        (response (attr "action" (word "update_minter") ∷ attr "new_minter" (text new_minter) ∷ []))

  unfoldable pub execute : Env → MessageInfo → ExecuteMsg → Call Response
  execute env info (ExecuteMsg.transfer recipient amount) =
      execute_transfer env info recipient amount
  execute env info (ExecuteMsg.burn amount) = execute_burn env info amount
  execute env info (ExecuteMsg.send contract amount msg) = execute_send env info contract amount msg
  execute env info (ExecuteMsg.mint recipient amount) = execute_mint env info recipient amount
  execute env info (ExecuteMsg.increase_allowance spender amount expires) =
      execute_increase_allowance chain env info spender amount expires
  execute env info (ExecuteMsg.decrease_allowance spender amount expires) =
      execute_decrease_allowance chain env info spender amount expires
  execute env info (ExecuteMsg.transfer_from owner recipient amount) =
      execute_transfer_from env info owner recipient amount
  execute env info (ExecuteMsg.burn_from owner amount) =
      execute_burn_from chain env info owner amount
  execute env info (ExecuteMsg.send_from owner contract amount msg) =
      execute_send_from chain env info owner contract amount msg
  execute env info (ExecuteMsg.update_minter new_minter) = execute_update_minter env info new_minter
  execute env info (ExecuteMsg.change_sink_address address) = execute_change_sink_address address
  execute env info (ExecuteMsg.change_tax_level amount) = execute_change_tax_level amount
