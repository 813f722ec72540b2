-- ===== src/Payments/Plain.antt =====
-- `execute_send` and `execute_burn` of src/contract.rs, `execute_send_from` and
-- `execute_burn_from` of src/allowances.rs: they move the plain amount and know no demurrage.
use demurrage_token.Base.{
  bytes_eq, ℕ, ◌-◌, ◌≤◌, ◌<◌, ◌≡◌, arith, some, Option-cases, inl, inr, Bytes, [], ◌∷◌,
}
use demurrage_token.Outcome.{ok, value_or}
use demurrage_token.Std.{Addr, Env, MessageInfo, Response, wasm_execute}
use demurrage_token.Cw20.{default_allowance, Cw20ReceiveMsg}
use demurrage_token.Chain.{Chain}
use demurrage_token.State.{Store, TokenInfo}
use demurrage_token.Balances.{balance_of, set_balance, checked_sub}
use demurrage_token.Balances.Laws.{debit_account_lem, credit_account_lem}
use demurrage_token.Balances.Moves.{moved}
use demurrage_token.Allowances.{
  reduce_total_supply, deduct_allowance, into_cosmos_msg, execute_burn_from, execute_send_from,
}
use demurrage_token.Allowances.Deduct.{Deduction, deduct_allowance-eq-ok}
use demurrage_token.Contract.{execute_burn, execute_send}

-- The message that carries an amount to the receiving contract.
abbrev pub CarriedBy : Chain → Cw20ReceiveMsg → Bytes → Response → Type 0
CarriedBy chain receive contract r =
    (msg : Bytes) × (chain.receive_to_binary receive ≡ ok msg)
    × (r.messages ≡ wasm_execute contract msg ∷ [])

-- A burn that succeeded took the amount from the account and from the total supply.
pub record Burned (from : Addr) (amount : ℕ) (s s' : Store) : Type 0 where
  pub info : TokenInfo
  pub stored : s.token_info ≡ some info
  pub enough : amount ≤ balance_of s from
  pub enough_supply : amount ≤ info.total_supply
  pub result : s' ≡ record (set_balance from (balance_of s from - amount) s) {
    token_info = some (record info { total_supply = info.total_supply - amount });
  }

pub execute_burn-eq-ok :
    (env : Env) (info : MessageInfo) (amount : ℕ) (s : Store) {r : Response} {s' : Store}
    → execute_burn env info amount s ≡ (ok r, s')
    → (0 < amount) × Burned info.sender amount s s'
unfolding execute_burn reduce_total_supply checked_sub
execute_burn-eq-ok env info amount s {r} {s'} h =
    let d = debit_account_lem info.sender amount s in
    elim (Option-cases s.token_info) [
      | inl missing ↦ absurd (ground (arith, d))
      | inr (token, e) ↦ (
        ground arith,
        record {
          info = token;
          stored = e;
          enough = ground (arith, d);
          enough_supply = ground (arith, d);
          result = ground (arith, d);
        },
      )
    ]

module _ (chain : Chain) where
  pub execute_burn_from-eq-ok :
      (env : Env) (info : MessageInfo) (owner : Bytes) (amount : ℕ) (s : Store) {r : Response}
      {s' : Store}
      → execute_burn_from chain env info owner amount s ≡ (ok r, s')
      → (owner_addr : Addr) × (s0 : Store) × (chain.addr_validate owner ≡ ok owner_addr)
        × Deduction owner_addr info.sender env.block amount s s0
        × Burned owner_addr amount s0 s'
  unfolding execute_burn_from reduce_total_supply checked_sub
  execute_burn_from-eq-ok env info owner amount s {r} {s'} h =
      let from = value_or [] (chain.addr_validate owner) in
      let q = deduct_allowance from info.sender env.block amount s in
      let a =
        deduct_allowance-eq-ok from info.sender env.block amount s
          {r = value_or default_allowance q.0} {s' = q.1} (ground arith) in
      let d = debit_account_lem from amount q.1 in
      elim (Option-cases q.1.token_info) [
        | inl missing ↦ absurd (ground (arith, d))
        | inr (token, e) ↦ (
          from,
          q.1,
          ground arith,
          a,
          record {
            info = token;
            stored = e;
            enough = ground (arith, d);
            enough_supply = ground (arith, d);
            result = ground (arith, d);
          },
        )
      ]

  -- A send that succeeded moved the amount, and carries it in its only message.
  pub execute_send-eq-ok :
      (env : Env) (info : MessageInfo) (contract : Bytes) (amount : ℕ) (msg : Bytes) (s : Store)
      {r : Response} {s' : Store}
      → execute_send chain env info contract amount msg s ≡ (ok r, s')
      → (to : Addr) × (0 < amount)
        × (chain.addr_validate contract ≡ ok to)
        × (amount ≤ balance_of s info.sender)
        × (s' ≡ moved info.sender to amount amount s)
        × CarriedBy chain (record { sender = info.sender; amount = amount; msg = msg }) contract r
  unfolding execute_send into_cosmos_msg
  execute_send-eq-ok env info contract amount msg s {r} {s'} h =
      let to = value_or [] (chain.addr_validate contract) in
      let receive : Cw20ReceiveMsg = record { sender = info.sender; amount = amount; msg = msg } in
      let d = debit_account_lem info.sender amount s in
      let k =
        credit_account_lem to amount
          (set_balance info.sender (balance_of s info.sender - amount) s) in
      (
        to,
        ground arith,
        ground arith,
        ground (arith, d),
        ground (arith, d, k),
        (value_or [] (chain.receive_to_binary receive), ground (arith, d, k), ground (arith, d, k)),
      )

  pub execute_send_from-eq-ok :
      (env : Env) (info : MessageInfo) (owner contract : Bytes) (amount : ℕ) (msg : Bytes)
      (s : Store) {r : Response} {s' : Store}
      → execute_send_from chain env info owner contract amount msg s ≡ (ok r, s')
      → (owner_addr to : Addr) × (s0 : Store) × (chain.addr_validate owner ≡ ok owner_addr)
        × (chain.addr_validate contract ≡ ok to)
        × Deduction owner_addr info.sender env.block amount s s0
        × (amount ≤ balance_of s0 owner_addr)
        × (s' ≡ moved owner_addr to amount amount s0)
        × CarriedBy chain (record { sender = info.sender; amount = amount; msg = msg }) contract r
  unfolding execute_send_from into_cosmos_msg
  execute_send_from-eq-ok env info owner contract amount msg s {r} {s'} h =
      let from = value_or [] (chain.addr_validate owner) in
      let to = value_or [] (chain.addr_validate contract) in
      let receive : Cw20ReceiveMsg = record { sender = info.sender; amount = amount; msg = msg } in
      let q = deduct_allowance from info.sender env.block amount s in
      let a =
        deduct_allowance-eq-ok from info.sender env.block amount s
          {r = value_or default_allowance q.0} {s' = q.1} (ground arith) in
      let d = debit_account_lem from amount q.1 in
      let k = credit_account_lem to amount (set_balance from (balance_of q.1 from - amount) q.1) in
      (
        from,
        to,
        q.1,
        ground arith,
        ground arith,
        a,
        ground (arith, d),
        ground (arith, d, k),
        (value_or [] (chain.receive_to_binary receive), ground (arith, d, k), ground (arith, d, k)),
      )
