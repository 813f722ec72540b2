-- ===== src/Allowances/Refusals.antt =====
-- The three messages of src/contract.rs that pay out of an allowance, where it does not cover them.
use demurrage_token.Base.{
  Bytes, bytes_eq, pair_eq, ℕ, ◌≡◌, arith, leb, if◌then◌else◌, Option, some, none, Option-cases,
  inl, inr,
}
use demurrage_token.Outcome.{ok, err}
use demurrage_token.Std.{Addr, BlockInfo, Env, MessageInfo, overflow}
use demurrage_token.Cw20.{AllowanceResponse}
use demurrage_token.Expiration.{is_expired}
use demurrage_token.Chain.{Chain}
use demurrage_token.State.{Store, ContractError, std, no_allowance, expired}
use demurrage_token.Allowances.{deduct_allowance, execute_burn_from, execute_send_from}
use demurrage_token.Allowances.Deduct.{allowance_at, deduct_allowance_lem}
use demurrage_token.Msg.{ExecuteMsg}
use demurrage_token.Contract.{execute, execute_transfer_from}

-- Why an allowance does not let its spender take an amount, if it does not.
abbrev pub refusal : BlockInfo → ℕ → Option AllowanceResponse → Option ContractError
refusal block amount none = some no_allowance
refusal block amount (some a) =
    if is_expired a.expires block
    then some expired
    else if leb amount a.allowance
    then none
    else some (std (overflow a.allowance amount))

deduct_allowance_refused :
    (owner spender : Addr) (block : BlockInfo) (amount : ℕ) (s : Store) (e : ContractError)
    → refusal block amount (allowance_at (owner, spender) s) ≡ some e
    → deduct_allowance owner spender block amount s ≡ (err e, s)
deduct_allowance_refused owner spender block amount s e h =
    let d = deduct_allowance_lem owner spender block amount s in
    elim (Option-cases (allowance_at (owner, spender) s)) [
      | inl missing ↦ ground (arith, d)
      | inr (a, found) ↦ ground (arith, d)
    ]

module _ (chain : Chain) (env : Env) (info : MessageInfo) (s : Store) where
  -- Where a sender has no allowance from an account, or one that has ended, or one below the
  -- amount, a transfer, a send and a burn out of that account all fail with the error that says
  -- which, in this order, and write nothing, whatever the balances are, where the addresses are
  -- valid.
  pub execute_refused :
      (owner recipient contract : Bytes) (amount : ℕ) (msg : Bytes) (from to receiver : Addr)
      (e : ContractError)
      → chain.addr_validate owner ≡ ok from
      → chain.addr_validate recipient ≡ ok to
      → chain.addr_validate contract ≡ ok receiver
      → refusal env.block amount (allowance_at (from, info.sender) s) ≡ some e
      → (execute chain env info (ExecuteMsg.transfer_from owner recipient amount) s ≡ (err e, s))
        × (execute chain env info (ExecuteMsg.send_from owner contract amount msg) s ≡ (err e, s))
        × (execute chain env info (ExecuteMsg.burn_from owner amount) s ≡ (err e, s))
  unfolding execute execute_transfer_from execute_send_from execute_burn_from
  execute_refused owner recipient contract amount msg from to receiver e valid valid' valid'' h =
      let d = deduct_allowance_refused from info.sender env.block amount s e h in
      (ground (arith, d), ground (arith, d), ground (arith, d))
