-- ===== src/Supply/Mint.antt =====
-- `execute_mint` of src/contract.rs.
use demurrage_token.Base.{
  bytes_eq, bytes_iff, ℕ, ◌+◌, ◌≤◌, ◌<◌, ◌≡◌, arith, Option, some, none, Option-cases, inl, inr,
  Bytes, [], ◌⊎◌, Bool,
}
use demurrage_token.Outcome.{ok, value_or}
use demurrage_token.Outcome.Word.{mod128}
use demurrage_token.Std.{Addr, Env, MessageInfo, Response}
use demurrage_token.Chain.{Chain}
use demurrage_token.State.{State, Store, TokenInfo, MinterData, ContractError, unauthorized}
use demurrage_token.Balances.{balance_of, set_balance}
use demurrage_token.Balances.Laws.{credit_account_lem}
use demurrage_token.Demurrage.{to_base_amount}
use demurrage_token.Period.{change_period}
use demurrage_token.Contract.{execute_mint, exceeds_cap}

-- A supply within a cap, where one is set.
abbrev pub WithinCap : Option ℕ → ℕ → Type 0
WithinCap none supply = Unit
WithinCap (some cap) supply = supply ≤ cap

pub exceeds_cap_within :
    (cap : Option ℕ) (supply : ℕ) → exceeds_cap cap supply ≡ Bool.false → WithinCap cap supply
unfolding exceeds_cap
exceeds_cap_within none supply h = tt
exceeds_cap_within (some cap) supply h = ground arith

abbrev pub with_supply : TokenInfo → ℕ → TokenInfo
with_supply info supply = record info { total_supply = supply }

abbrev pub with_token_info : Store → TokenInfo → Store
with_token_info s info = record s { token_info = some info }

module _ (chain : Chain) where
  -- A mint that succeeded: the sender is the minter, the supply grew by the amount within the
  -- cap, and the base amount arrives at `to` after the period has changed.
  pub record Minted (env : Env) (sender : Addr) (recipient : Bytes) (amount : ℕ) (s s' : Store)
      : Type 0 where
    pub info : TokenInfo
    pub minter_data : MinterData
    pub state : State
    pub next : State
    pub paid : Store
    pub to : Addr
    pub base_value : ℕ
    pub stored : s.token_info ≡ some info
    pub may_mint : info.mint ≡ some minter_data
    pub sent : minter_data.minter ≡ sender
    pub within : WithinCap minter_data.cap (info.total_supply + amount)
    pub in_range : info.total_supply + amount < mod128
    pub state_stored : s.demurrage_state ≡ some state
    pub period :
        (r : ContractError ⊎ Bool) × (change_period chain env state
            (with_token_info s (with_supply info (info.total_supply + amount)))
          ≡ (ok (r, next), paid))
    pub valid : chain.addr_validate recipient ≡ ok to
    pub converted : to_base_amount amount next.demurrage_amount ≡ ok base_value
    pub result : s' ≡ set_balance to (balance_of paid to + base_value) paid

  execute_mint-Minted :
      (env : Env) (info : MessageInfo) (recipient : Bytes) (amount : ℕ) (s : Store)
      (token : TokenInfo) (minter_data : MinterData) (state : State) {r : Response} {s' : Store}
      → s.token_info ≡ some token
      → token.mint ≡ some minter_data
      → s.demurrage_state ≡ some state
      → execute_mint chain env info recipient amount s ≡ (ok r, s')
      → Minted env info.sender recipient amount s s'
  unfolding execute_mint
  execute_mint-Minted env info recipient amount s token minter_data state {r} {s'} e e' e'' h =
      let s0 = with_token_info s (with_supply token (token.total_supply + amount)) in
      let p = change_period chain env state s0 in
      let c = value_or (inl unauthorized, state) p.0 in
      let base = value_or 0 (to_base_amount amount c.1.demurrage_amount) in
      let to = value_or [] (chain.addr_validate recipient) in
      let k = credit_account_lem to base p.1 in
      record {
        info = token;
        minter_data = minter_data;
        state = state;
        next = c.1;
        paid = p.1;
        to = to;
        base_value = base;
        stored = e;
        may_mint = e';
        sent = ground (arith, bytes_iff minter_data.minter info.sender);
        within = exceeds_cap_within minter_data.cap (token.total_supply + amount) (ground arith);
        in_range = ground arith;
        state_stored = e'';
        period = (c.0, ground arith);
        valid = ground arith;
        converted = ground arith;
        result = ground (arith, k);
      }

  -- In every mint that succeeds the sender is the minter, the new total supply is within the cap
  -- and fits in a u128, the period changes, and the recipient is credited with the base amount at
  -- the modifier after that.
  pub execute_mint-eq-ok :
      (env : Env) (info : MessageInfo) (recipient : Bytes) (amount : ℕ) (s : Store) {r : Response}
      {s' : Store}
      → execute_mint chain env info recipient amount s ≡ (ok r, s')
      → Minted env info.sender recipient amount s s'
  execute_mint-eq-ok env info recipient amount s h = elim (Option-cases s.token_info) [
    | inl missing ↦ absurd (unfold execute_mint in ground arith)
    | inr (token, e) ↦ elim (Option-cases s.demurrage_state) [
      | inl missing ↦ absurd (unfold execute_mint in ground arith)
      | inr (state, e') ↦ elim (Option-cases token.mint) [
        | inl missing ↦ absurd (unfold execute_mint in ground arith)
        | inr (m, e'') ↦ execute_mint-Minted env info recipient amount s token m state e e'' e' h
      ]
    ]
  ]
