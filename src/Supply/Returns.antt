-- ===== src/Supply/Returns.antt =====
-- `execute_mint` of src/contract.rs: when it returns, and what it has done then.
use demurrage_token.Base.{
  bytes_eq, bytes_iff, ℕ, ◌+◌, ◌*◌, ◌/◌, ◌<◌, ◌≡◌, arith, false, Option, some, none, Bytes, [], ◌∷◌,
}
use demurrage_token.Outcome.{ok}
use demurrage_token.Outcome.Word.{mod128}
use demurrage_token.Std.{Addr, Env, MessageInfo, Response, response, attr, word, text, amount_of}
use demurrage_token.Chain.{Chain}
use demurrage_token.State.{State, Store, TokenInfo, MinterData, get_cap}
use demurrage_token.Storage.Sum.{value-le-total}
use demurrage_token.Balances.{balance_of, set_balance}
use demurrage_token.Balances.Laws.{credit_account_lem}
use demurrage_token.Demurrage.{resolution_factor}
use demurrage_token.Period.Decays.{with_state}
use demurrage_token.Period.Effects.{Taxed, tax_of, next_state}
use demurrage_token.Period.Returns.{Ready}
use demurrage_token.Payments.Totals.{held}
use demurrage_token.Payments.Returns.{base_after, period_changed}
use demurrage_token.Supply.Mint.{WithinCap, with_supply, with_token_info}
use demurrage_token.Contract.{execute_mint, exceeds_cap}

within-exceeds_cap :
    (cap : Option ℕ) (supply : ℕ) → WithinCap cap supply → exceeds_cap cap supply ≡ false
unfolding exceeds_cap
within-exceeds_cap none supply h = ground arith
within-exceeds_cap (some cap) supply h = ground arith

-- The answer to a mint.
abbrev pub mint_response : Bytes → ℕ → Response
mint_response recipient amount = response (
    attr "action" (word "mint")
    ∷ attr "to" (text recipient)
    ∷ attr "amount" (amount_of amount)
    ∷ [])

-- Where a period can be changed on the storage with the larger supply, and the modifier has not
-- decayed to zero, a mint by the minter to a valid address, of an amount other than 0 that is within
-- the cap and not too large for the conversion, returns, if the supply and all balances with the
-- tax and the base amount fit in a u128: the supply is raised by the amount, the new period is saved,
-- the tax is paid to the sink or to nobody, and the base amount arrives at the recipient.
pub execute_mint_returns :
    (chain : Chain) (env : Env) (info : MessageInfo) (recipient : Bytes) (amount : ℕ) (s : Store)
    (token : TokenInfo) (m : MinterData) (state : State) (to : Addr)
    → let s0 = with_token_info s (with_supply token (token.total_supply + amount)) in
      (g : Ready chain env state s0)
      → s.token_info ≡ some token
      → token.mint ≡ some m
      → m.minter ≡ info.sender
      → WithinCap m.cap (token.total_supply + amount)
      → token.total_supply + amount < mod128
      → s.demurrage_state ≡ some state
      → chain.addr_validate recipient ≡ ok to
      → 0 < g.later
      → 0 < amount
      → amount * resolution_factor < mod128
      → held s + g.token.total_supply + amount * resolution_factor / (g.later * 100000) < mod128
      → let next = next_state state g.later in
        (paid : Store) × Taxed chain next (tax_of next s0) (with_state s0 next) paid
        × (execute_mint chain env info recipient amount s ≡ (
          ok (mint_response recipient amount),
          set_balance to
              (balance_of paid to + amount * resolution_factor / (g.later * 100000))
              paid,
        ))
unfolding execute_mint
execute_mint_returns chain env info recipient amount s token m state to g stored may_mint sent
      within in_range state_stored valid pos some_amount fits room =
    let s0 = with_token_info s (with_supply token (token.total_supply + amount)) in
    let base = base_after chain env amount s0 state g in
    let (paid, run, taxed, converted, more, sum) =
      period_changed chain env amount s0 state g pos fits in
    let part = value-le-total to paid.balances in
    let fit : balance_of paid to + base < mod128 = omega arith in
    let k = credit_account_lem to base paid in
    let cap : get_cap token ≡ m.cap = ground (arith, may_mint) in
    let below = within-exceeds_cap m.cap (token.total_supply + amount) within in
    let is_minter = (bytes_iff m.minter info.sender).1 sent in
    (
      paid,
      taxed,
      ground (
        arith, stored, may_mint, is_minter, in_range, cap, below, state_stored, run, converted,
        valid, k, fit,
      ),
    )
