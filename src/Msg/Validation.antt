-- ===== src/Msg/Validation.antt =====
-- `InstantiateMsg::validate` of src/msg.rs against its description.
use demurrage_token.Base.{
  ℕ, ◌≤◌, ◌≡◌, ◌↔◌, ◌⊎◌, refl, arith, true, false, Bool-cases, inl, inr, List, [], ◌∷◌, All, length,
}
use demurrage_token.Outcome.{ok}
use demurrage_token.Msg.{
  InstantiateMsg, validate, is_valid_name, is_valid_symbol, symbol_bytes, bad_symbol_byte,
}

-- A letter or a dash.
abbrev pub IsSymbolByte : ℕ → Type 0
IsSymbolByte b = (b ≡ 45) ⊎ (((65 ≤ b) × (b ≤ 90)) ⊎ ((97 ≤ b) × (b ≤ 122)))

bad_symbol_byte_iff : (b : ℕ) → (bad_symbol_byte b ≡ false) ↔ IsSymbolByte b
unfolding bad_symbol_byte
bad_symbol_byte_iff b = ((λ h. ground arith), (λ h. ground arith))

symbol_bytes_iff : (r : List ℕ) → (symbol_bytes r ≡ true) ↔ All IsSymbolByte r
unfolding symbol_bytes
symbol_bytes_iff [] = ((λ h. tt), (λ h. refl))
symbol_bytes_iff (b ∷ r) =
    let one = bad_symbol_byte_iff b in
    let rest = symbol_bytes_iff r in
    elim (Bool-cases (bad_symbol_byte b)) [
      | inl bad ↦ rw bad ((λ h. cc), (λ h. cc (bad, one.1 h.0)))
      | inr good ↦ rw good ((λ h. (one.0 good, rest.0 h)), (λ h. rest.1 h.1))
    ]

-- The message's texts and decimals are in their format.
pub record IsWellFormed (msg : InstantiateMsg) : Type 0 where
  pub name : (3 ≤ length msg.name) × (length msg.name ≤ 50)
  pub symbol : (3 ≤ length msg.symbol) × (length msg.symbol ≤ 12)
  pub letters : All IsSymbolByte msg.symbol
  pub decimals : msg.decimals ≤ 18

-- A message is accepted exactly if its name has 3 to 50 bytes, its symbol 3 to 12 bytes, each a
-- letter or a dash, and its decimals are at most 18.
pub validate_iff : (msg : InstantiateMsg) → (validate msg ≡ ok tt) ↔ IsWellFormed msg
unfolding validate is_valid_name is_valid_symbol
validate_iff msg =
    let letters = symbol_bytes_iff msg.symbol in
    (
      (λ h. record {
        name = (ground arith, ground arith);
        symbol = (ground arith, ground arith);
        letters = letters.0 (ground arith);
        decimals = ground arith;
      }),
      (λ h. let good = letters.1 h.letters in ground arith),
    )
