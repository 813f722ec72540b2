-- ===== src/Supply/Refusals.antt =====
-- `execute_mint` of src/contract.rs, where it is refused.
use demurrage_token.Base.{
  Bytes, bytes_eq, ℕ, ◌+◌, ◌<◌, ◌≡◌, arith, ◌==◌, ltb, ◌=?◌, if◌then◌else◌, Option, some, none,
  Option-cases, Bool, false, inl, inr,
}
use demurrage_token.Outcome.{err}
use demurrage_token.Outcome.Word.{mod128}
use demurrage_token.Std.{Addr, Env, MessageInfo}
use demurrage_token.Chain.{Chain}
use demurrage_token.State.{
  State, Store, TokenInfo, MinterData, ContractError, get_cap, invalid_zero_amount, unauthorized,
  cannot_exceed_cap,
}
use demurrage_token.Contract.{execute_mint, exceeds_cap}

-- Whether a minter, if there is one, is the sender.
abbrev pub is_minter : Addr → Option MinterData → Bool
is_minter sender none = false
is_minter sender (some m) = m.minter =? sender

-- Whether a supply is above the cap of a minter.
abbrev pub is_above : ℕ → Option MinterData → Bool
is_above supply none = false
is_above supply (some m) = elim m.cap [ none ↦ false | some cap ↦ ltb cap supply ]

-- Why a mint is not allowed, if it is not.
abbrev pub mint_refusal : Addr → ℕ → TokenInfo → Option ContractError
mint_refusal sender amount token =
    if amount == 0
    then some invalid_zero_amount
    else if is_minter sender token.mint
    then if is_above (token.total_supply + amount) token.mint then some cannot_exceed_cap else none
    else some unauthorized

-- Where token info and state are stored and the supply with the amount fits in a u128, a mint of
-- 0, a mint of more by anybody but the minter, or where there is no minter, and a mint by the
-- minter beyond the cap each fail with their own error, in this order, and write nothing.
pub execute_mint_refused :
    (chain : Chain) (env : Env) (info : MessageInfo) (recipient : Bytes) (amount : ℕ) (s : Store)
    (token : TokenInfo) (state : State) (e : ContractError)
    → s.token_info ≡ some token
    → s.demurrage_state ≡ some state
    → token.total_supply + amount < mod128
    → mint_refusal info.sender amount token ≡ some e
    → execute_mint chain env info recipient amount s ≡ (err e, s)
execute_mint_refused chain env info recipient amount s token state e stored stored' fits h =
    elim (Option-cases token.mint) [
      | inl missing ↦ unfold execute_mint in ground arith
      | inr (m, found) ↦ elim (Option-cases m.cap) [
        | inl no_cap ↦
            let same_cap : get_cap token ≡ none = ground (arith, found) in
            unfold execute_mint exceeds_cap in ground arith
        | inr (cap, limit) ↦
            let same_cap : get_cap token ≡ some cap = ground (arith, found) in
            unfold execute_mint exceeds_cap in ground arith
      ]
    ]
