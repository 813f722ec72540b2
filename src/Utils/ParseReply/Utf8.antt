-- ===== src/Utils/ParseReply/Utf8.antt =====
-- The bytes that `String::from_utf8` accepts, which packages/utils/src/parse_reply.rs calls: those
-- of the Unicode standard's table of well-formed byte sequences.
use demurrage_token.Base.{
  ℕ, zero, suc, leb, ltb, ◌==◌, if◌then◌else◌, Bool, true, false, ◌&&◌, Option, none, some, Bytes,
  [], ◌∷◌,
}

-- After a first byte: how many bytes follow, and the range of the first of them. The others range
-- from 0x80 to 0xbf.
abbrev pub Follow : Type 0
Follow = ℕ × ℕ × ℕ

unfoldable pub after_lead : ℕ → Option Follow
after_lead b =
    if ltb b 0x80
    then some (0, 0x80, 0xbf)
    else if ltb b 0xc2
    then none
    else if ltb b 0xe0
    then some (1, 0x80, 0xbf)
    else if b == 0xe0
    then some (2, 0xa0, 0xbf)
    else if b == 0xed
    then some (2, 0x80, 0x9f)
    else if ltb b 0xf0
    then some (2, 0x80, 0xbf)
    else if b == 0xf0
    then some (3, 0x90, 0xbf)
    else if ltb b 0xf4
    then some (3, 0x80, 0xbf)
    else if b == 0xf4
    then some (3, 0x80, 0x8f)
    else none

-- `n` bytes of a character are left, the next of them from `low` to `high`.
unfoldable pub utf8_rest : ℕ → ℕ → ℕ → Bytes → Bool
unfolding after_lead
utf8_rest zero low high [] = true
utf8_rest (suc n) low high [] = false
utf8_rest zero low high (b ∷ r) = elim (after_lead b) [
  | none ↦ false
  | some (n, low', high') ↦ utf8_rest n low' high' r
]
utf8_rest (suc n) low high (b ∷ r) = (leb low b && leb b high) && utf8_rest n 0x80 0xbf r

unfoldable pub is_utf8 : Bytes → Bool
unfolding utf8_rest
is_utf8 b = utf8_rest 0 0 0 b
