-- ===== src/Payments/Demurred.antt =====
-- `execute_transfer` and `execute_transfer_from` of src/contract.rs, which change the period
-- first and credit a base amount.
use demurrage_token.Base.{
  bytes_eq, ℕ, ◌-◌, ◌≤◌, ◌≡◌, arith, some, Option-cases, inl, inr, Bytes, [], ◌⊎◌, Bool,
}
use demurrage_token.Outcome.{ok, value_or}
use demurrage_token.Std.{Addr, Env, MessageInfo, Response}
use demurrage_token.Chain.{Chain}
use demurrage_token.State.{State, Store, ContractError, unauthorized}
use demurrage_token.Balances.{balance_of, set_balance}
use demurrage_token.Balances.Laws.{debit_account_lem, credit_account_lem}
use demurrage_token.Balances.Moves.{moved}
use demurrage_token.Demurrage.{to_base_amount}
use demurrage_token.Period.{change_period}
use demurrage_token.Cw20.{default_allowance}
use demurrage_token.Allowances.{deduct_allowance}
use demurrage_token.Allowances.Deduct.{Deduction, deduct_allowance-eq-ok}
use demurrage_token.Contract.{execute_transfer, execute_transfer_from}

module _ (chain : Chain) where
  -- The run of a payment from `from` that changed the period: `state` was stored, `next` is the
  -- state after the period, `paid` the storage then, and `base_value` arrives at `to`.
  pub record DemurredPayment (env : Env) (from : Addr) (recipient : Bytes) (amount : ℕ)
      (s s' : Store) : Type 0 where
    pub state : State
    pub next : State
    pub paid : Store
    pub to : Addr
    pub base_value : ℕ
    pub stored : s.demurrage_state ≡ some state
    pub period :
        (r : ContractError ⊎ Bool) × (change_period chain env state s ≡ (ok (r, next), paid))
    pub valid : chain.addr_validate recipient ≡ ok to
    pub converted : to_base_amount amount next.demurrage_amount ≡ ok base_value
    pub enough : amount ≤ balance_of paid from
    pub result : s' ≡ moved from to amount base_value paid

  pub execute_transfer-eq-ok :
      (env : Env) (info : MessageInfo) (recipient : Bytes) (amount : ℕ) (s : Store) {r : Response}
      {s' : Store}
      → execute_transfer chain env info recipient amount s ≡ (ok r, s')
      → DemurredPayment env info.sender recipient amount s s'
  unfolding execute_transfer
  execute_transfer-eq-ok env info recipient amount s {r} {s'} h =
      elim (Option-cases s.demurrage_state) [
        | inl missing ↦ absurd (ground arith)
        | inr (state, e) ↦
            let p = change_period chain env state s in
            let c = value_or (inl unauthorized, state) p.0 in
            let base = value_or 0 (to_base_amount amount c.1.demurrage_amount) in
            let to = value_or [] (chain.addr_validate recipient) in
            let d = debit_account_lem info.sender amount p.1 in
            let s1 = set_balance info.sender (balance_of p.1 info.sender - amount) p.1 in
            let k = credit_account_lem to base s1 in
            record {
              state = state;
              next = c.1;
              paid = p.1;
              to = to;
              base_value = base;
              stored = e;
              period = (c.0, ground arith);
              valid = ground arith;
              converted = ground arith;
              enough = ground (arith, d);
              result = ground (arith, d, k);
            }
      ]

  -- `TransferFrom` lowers the allowance first; then it is the same payment out of the owner's
  -- account.
  pub execute_transfer_from-eq-ok :
      (env : Env) (info : MessageInfo) (owner recipient : Bytes) (amount : ℕ) (s : Store)
      {r : Response} {s' : Store}
      → execute_transfer_from chain env info owner recipient amount s ≡ (ok r, s')
      → (owner_addr : Addr) × (s0 : Store) × (chain.addr_validate owner ≡ ok owner_addr)
        × Deduction owner_addr info.sender env.block amount s s0
        × DemurredPayment env owner_addr recipient amount s0 s'
  unfolding execute_transfer_from
  execute_transfer_from-eq-ok env info owner recipient amount s {r} {s'} h =
      let from = value_or [] (chain.addr_validate owner) in
      let q = deduct_allowance from info.sender env.block amount s in
      let d =
        deduct_allowance-eq-ok from info.sender env.block amount s
          {r = value_or default_allowance q.0} {s' = q.1} (ground arith) in
      elim (Option-cases q.1.demurrage_state) [
        | inl missing ↦ absurd (ground arith)
        | inr (state, e) ↦
            let p = change_period chain env state q.1 in
            let c = value_or (inl unauthorized, state) p.0 in
            let base = value_or 0 (to_base_amount amount c.1.demurrage_amount) in
            let to = value_or [] (chain.addr_validate recipient) in
            let s1 = set_balance from (balance_of p.1 from - amount) p.1 in
            let k = credit_account_lem to base s1 in
            let g = debit_account_lem from amount p.1 in
            (
              from,
              q.1,
              ground arith,
              d,
              record {
                state = state;
                next = c.1;
                paid = p.1;
                to = to;
                base_value = base;
                stored = e;
                period = (c.0, ground arith);
                valid = ground arith;
                converted = ground arith;
                enough = ground (arith, g);
                result = ground (arith, g, k);
              },
            )
      ]
