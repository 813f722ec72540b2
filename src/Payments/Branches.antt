-- ===== src/Payments/Branches.antt =====
-- `execute_send` and `execute_burn` of src/contract.rs on every branch.
use demurrage_token.Base.{
  bytes_eq, ℕ, ◌+◌, ◌-◌, ◌≤◌, ◌<◌, ◌≡◌, arith, ◌==◌, leb, if◌then◌else◌, Bool-cases, inl, inr, some,
  Bytes, [], ◌∷◌,
}
use demurrage_token.Outcome.{ok, err}
use demurrage_token.Outcome.Word.{mod128}
use demurrage_token.Std.{
  Addr, Env, MessageInfo, Response, response, response_with, attr, word, text, amount_of,
  wasm_execute, overflow,
}
use demurrage_token.Chain.{Chain}
use demurrage_token.State.{Store, TokenInfo, std, invalid_zero_amount}
use demurrage_token.Storage.Sum.{value-le-total}
use demurrage_token.Balances.{balance_of, set_balance, checked_sub}
use demurrage_token.Balances.Laws.{debit_account_lem, credit_account_lem, total-set_balance}
use demurrage_token.Balances.Moves.{moved}
use demurrage_token.Allowances.{into_cosmos_msg, reduce_total_supply}
use demurrage_token.Payments.Totals.{held}
use demurrage_token.Contract.{execute_send, execute_burn}

-- After a debit the amount fits into any account, where all balances together fit in a u128.
credit_fits :
    (from to : Addr) (amount : ℕ) (s : Store)
    → held s < mod128
    → amount ≤ balance_of s from
    → balance_of (set_balance from (balance_of s from - amount) s) to + amount < mod128
credit_fits from to amount s fit enough =
    let s1 = set_balance from (balance_of s from - amount) s in
    let sum = total-set_balance from (balance_of s from - amount) s in
    let part = value-le-total to s1.balances in omega arith

module _ (chain : Chain) (env : Env) (info : MessageInfo) (s : Store) where
  -- The answer to a send, whose message to the contract is `packed`.
  abbrev pub send_response : Bytes → ℕ → Bytes → Response
  send_response contract amount packed = response_with (wasm_execute contract packed) (
      attr "action" (word "send")
      ∷ attr "from" (text info.sender)
      ∷ attr "to" (text contract)
      ∷ attr "amount" (amount_of amount)
      ∷ [])

  -- On a storage whose balances add up to less than 2^128, a send to a valid address with a
  -- message that is serialized never panics: an amount of 0 and one above the sender's balance are
  -- refused, each with its own error and nothing written, and in every other case the amount is
  -- moved and the message sent.
  pub execute_send_branches :
      (contract : Bytes) (amount : ℕ) (msg : Bytes) (to : Addr) (packed : Bytes)
      → held s < mod128
      → chain.addr_validate contract ≡ ok to
      → chain.receive_to_binary (record { sender = info.sender; amount = amount; msg = msg })
        ≡ ok packed
      → execute_send chain env info contract amount msg s ≡ (
          if amount == 0
          then (err invalid_zero_amount, s)
          else if leb amount (balance_of s info.sender)
          then (ok (send_response contract amount packed), moved info.sender to amount amount s)
          else (err (std (overflow (balance_of s info.sender) amount)), s))
  unfolding execute_send into_cosmos_msg
  execute_send_branches contract amount msg to packed fit valid sent =
      let d = debit_account_lem info.sender amount s in
      let s1 = set_balance info.sender (balance_of s info.sender - amount) s in
      let k = credit_account_lem to amount s1 in
      elim (Bool-cases (leb amount (balance_of s info.sender))) [
        | inl enough ↦
            let room = credit_fits info.sender to amount s fit (ground arith) in
            ground (arith, d, k, room, valid, sent)
        | inr less ↦ ground (arith, d, k, valid, sent)
      ]

module _ (env : Env) (info : MessageInfo) (s : Store) where
  -- With token info stored, a burn refuses an amount of 0, an amount above the sender's balance,
  -- and one above the total supply, each with its own error; only the last has written the lower
  -- balance before it fails. In every other case balance and supply are lowered by the amount.
  pub execute_burn_branches :
      (amount : ℕ) (token : TokenInfo)
      → s.token_info ≡ some token
      → execute_burn env info amount s ≡ (
          let paid = set_balance info.sender (balance_of s info.sender - amount) s in
          if amount == 0
          then (err invalid_zero_amount, s)
          else if leb amount (balance_of s info.sender)
          then (if leb amount token.total_supply
              then (
                ok (
                    response (
                      attr "action" (word "burn")
                      ∷ attr "from" (text info.sender)
                      ∷ attr "amount" (amount_of amount)
                      ∷ [])),
                record paid {
                  token_info = some (record token { total_supply = token.total_supply - amount });
                },
              )
              else (err (std (overflow token.total_supply amount)), paid))
          else (err (std (overflow (balance_of s info.sender) amount)), s))
  unfolding execute_burn reduce_total_supply checked_sub
  execute_burn_branches amount token stored =
      let d = debit_account_lem info.sender amount s in ground (arith, d, stored)
