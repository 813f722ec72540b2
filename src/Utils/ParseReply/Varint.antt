-- ===== src/Utils/ParseReply/Varint.antt =====
-- The base-128 numbers of packages/utils/src/parse_reply.rs: their bounds, and how they are written.
use native.Mathlib.Nat.{one-le-pow, pow-suc, pow-zero, mul-le-mul_left}
use native.Mathlib.Numerals.{towards_suc}
use demurrage_token.Base.{
  lt→ltb, ℕ, zero, suc, ◌+◌, ◌*◌, ◌/◌, ◌%◌, ◌^◌, ◌≤◌, ◌<◌, ◌≡◌, ◌≢◌, arith, ltb, ◌==◌,
  if◌then◌else◌, Bool-cases, inl, inr, Bytes, [], ◌∷◌, length, ◌++◌, refl, ap, drop, false, ◌⊎◌,
}
use demurrage_token.Outcome.{ok, err, panic}
use demurrage_token.Outcome.Word.{mod64}
use demurrage_token.Utils.ParseReply.{
  varint_loop, byte_at, slice_from, parse_failure, varint_too_short,
}

-- A number in groups of seven bits, the lowest first, the high bit set in all but the last group.
-- It has at most `rounds` groups.
unfoldable pub write_varint : (rounds n : ℕ) → Bytes
write_varint zero n = []
write_varint (suc rounds) n =
    let more = write_varint rounds (n / 128) in if ltb n 128 then n ∷ [] else (128 + n % 128) ∷ more

next_weight : (i : ℕ) → 2 ^ ((i + 1) * 7) ≡ 128 * 2 ^ (i * 7)
next_weight i =
    let e : (i + 1) * 7 ≡ i * 7 + 7 = omega arith in rw e (simp towards_suc (omega arith))

-- Where the data from `i` on is not empty, its first byte can be read, and the others be kept.
drop_cons :
    (i : ℕ) (bytes : Bytes) {byte : ℕ} {rest : Bytes}
    → drop i bytes ≡ byte ∷ rest
    → (i < length bytes) × (drop (suc i) bytes ≡ rest)
drop_cons zero [] h = cc
drop_cons zero (b ∷ bytes) h = (omega arith, cc)
drop_cons (suc i) [] h = cc
drop_cons (suc i) (b ∷ bytes) h = let (low, left) = drop_cons i bytes h in (omega arith, left)

byte_at_lem :
    (i : ℕ) (bytes : Bytes) {byte : ℕ} {rest : Bytes}
    → drop i bytes ≡ byte ∷ rest
    → byte_at i bytes ≡ ok byte
unfolding byte_at
byte_at_lem i bytes h = rw h refl

slice_from_lem :
    (i : ℕ) (bytes : Bytes) {byte : ℕ} {rest : Bytes}
    → drop i bytes ≡ byte ∷ rest
    → slice_from (i + 1) bytes ≡ ok rest
unfolding slice_from
slice_from_lem i bytes h = let (low, left) = drop_cons i bytes h in ground (arith, left)

-- A round on a byte, where the sum fits in a u64.
varint_loop-step :
    (rounds i field_number len byte : ℕ) (bytes rest : Bytes)
    → drop i bytes ≡ byte ∷ rest
    → len + byte % 128 * 2 ^ (i * 7) < mod64
    → varint_loop (suc rounds) i field_number len bytes ≡ (
        let len' = len + byte % 128 * 2 ^ (i * 7) in
        if byte / 128 % 2 == 0
        then ok (len', i)
        else varint_loop rounds (i + 1) field_number len' bytes)
unfolding varint_loop
varint_loop-step rounds i field_number len byte bytes rest there fit =
    let word : byte % 128 * 2 ^ (i * 7) % mod64 ≡ byte % 128 * 2 ^ (i * 7) = omega arith in
    let (low, _) = drop_cons i bytes there in
    let short : (length bytes == i) ≡ false = ground arith in
    rw (short, byte_at_lem i bytes there, word, lt→ltb (len + byte % 128 * 2 ^ (i * 7)) mod64 fit)
      refl

-- What fits in the groups that are left fits in a u64, and so does one group of it.
weight_fits :
    (rounds i n len : ℕ)
    → len < 2 ^ (i * 7)
    → 2 ^ (i * 7) * 128 ^ rounds ≤ mod64
    → n < 128 ^ rounds
    → len + n * 2 ^ (i * 7) < mod64
weight_fits rounds i n len low fit small =
    let k = mul-le-mul_left {m = suc n} {n = 128 ^ rounds} (2 ^ (i * 7)) small in omega arith

rounds_left : (rounds n : ℕ) → 128 ≤ n → n < 128 ^ suc rounds → 0 < rounds
rounds_left zero n big small = absurd (omega (arith, pow-suc 128 0, pow-zero 128))
rounds_left (suc rounds) n big small = omega arith

-- A number is its lowest group and the others, which weigh 128 times as much.
weight_split : (i n : ℕ) → n / 128 * 2 ^ ((i + 1) * 7) + n % 128 * 2 ^ (i * 7) ≡ n * 2 ^ (i * 7)
weight_split i n =
    let split : 128 * (n / 128) + n % 128 ≡ n = omega arith in
    rw (next_weight i) (omega (arith, ap (λ (t : ℕ). t * 2 ^ (i * 7)) split))

-- The bounds of the loop after one more group.
low_next : (i len byte : ℕ) → len < 2 ^ (i * 7) → len + byte % 128 * 2 ^ (i * 7) < 2 ^ ((i + 1) * 7)
low_next i len byte low =
    let group : byte % 128 ≤ 127 = omega arith in
    let k = mul-le-mul_left (2 ^ (i * 7)) group in rw (next_weight i) (omega arith)

fit_next :
    (rounds i limit : ℕ)
    → 2 ^ (i * 7) * 128 ^ suc rounds ≤ limit
    → 2 ^ ((i + 1) * 7) * 128 ^ rounds ≤ limit
fit_next rounds i limit fit =
    let fit' : 2 ^ (i * 7) * (128 ^ rounds * 128) ≤ limit = rw (pow-suc 128 rounds) at fit in
    rw (next_weight i) (omega arith)

-- With a group left to read, the next weight is within the limit.
weight_next :
    (rounds i limit : ℕ) → 2 ^ (i * 7) * 128 ^ suc rounds ≤ limit → 2 ^ ((i + 1) * 7) ≤ limit
weight_next rounds i limit fit =
    let one : 1 ≤ 128 ^ rounds = one-le-pow rounds 128 (omega arith) in
    let k = mul-le-mul_left (2 ^ ((i + 1) * 7)) one in omega (arith, fit_next rounds i limit fit)

-- The loop reads what `write_varint` has written at `i`, and what follows is left.
pub varint_loop-write_varint :
    (rounds i field_number len n : ℕ) (bytes rest : Bytes)
    → drop i bytes ≡ write_varint rounds n ++ rest
    → n < 128 ^ rounds
    → len < 2 ^ (i * 7)
    → 2 ^ (i * 7) * 128 ^ rounds ≤ mod64
    → 0 < rounds
    → (j : ℕ) × (varint_loop rounds i field_number len bytes ≡ ok (len + n * 2 ^ (i * 7), j))
      × (slice_from (j + 1) bytes ≡ ok rest)
unfolding write_varint
varint_loop-write_varint zero i field_number len n bytes rest there small low fit pos =
    absurd (omega arith)
varint_loop-write_varint (suc rounds) i field_number len n bytes rest there small low fit pos =
    elim (Bool-cases (ltb n 128)) [
      | inl last ↦
          let there' : drop i bytes ≡ n ∷ rest = rw last at there in
          let all_fits = weight_fits (suc rounds) i n len low fit small in
          let small' : n < 128 = ground arith in
          let same : n % 128 ≡ n = omega arith in
          let round =
            varint_loop-step rounds i field_number len n bytes rest there' (rw same all_fits) in
          (i, ground (arith, round), slice_from_lem i bytes there')
      | inr more ↦
          let big : 128 ≤ n = ground arith in
          let low' = low_next i len n low in
          let sum = weight_split i n in
          let byte = 128 + n % 128 in
          let group : byte % 128 ≡ n % 128 = omega arith in
          let high : byte / 128 % 2 ≡ 1 = omega arith in
          let small' : n / 128 < 128 ^ rounds = omega (arith, pow-suc 128 rounds) in
          let r = write_varint rounds (n / 128) ++ rest in
          let there' : drop i bytes ≡ byte ∷ r = rw more at there in
          let left : drop (i + 1) bytes ≡ r =
            let one : i + 1 ≡ suc i = omega arith in rw one (drop_cons i bytes there').1 in
          let within : len + byte % 128 * 2 ^ (i * 7) < mod64 =
            rw group (omega (arith, low', weight_next rounds i mod64 fit)) in
          let round = varint_loop-step rounds i field_number len byte bytes r there' within in
          let (j, ih, after) =
            varint_loop-write_varint rounds (i + 1) field_number (len + n % 128 * 2 ^ (i * 7))
              (n / 128) bytes rest left small' low' (fit_next rounds i mod64 fit)
              (rounds_left rounds n big small) in
          (j, ground (arith, round, ih, sum), after)
    ]

-- Where `i` is the length of the data, the loop fails.
varint_loop_short :
    (rounds i field_number len : ℕ) (bytes : Bytes)
    → length bytes ≡ i
    → varint_loop (suc rounds) i field_number len bytes
      ≡ err (parse_failure (varint_too_short field_number))
unfolding varint_loop
varint_loop_short rounds i field_number len bytes h = ground arith

-- Up to its length, data has a first byte from `i` on or none.
drop-cases :
    (i : ℕ) (bytes : Bytes)
    → i ≤ length bytes
    → (length bytes ≡ i) ⊎ ((byte : ℕ) × (rest : Bytes) × (drop i bytes ≡ byte ∷ rest))
drop-cases zero [] h = inl refl
drop-cases zero (b ∷ bytes) h = inr (b, bytes, refl)
drop-cases (suc i) [] h = absurd (omega arith)
drop-cases (suc i) (b ∷ bytes) h = elim (drop-cases i bytes (omega arith)) [
  | inl e ↦ inl (omega arith)
  | inr e ↦ inr e
]

-- Within any bytes the loop never panics, and it ends at one of them with a number that fits in
-- the groups read.
pub varint_loop_bounds :
    (rounds i field_number len : ℕ) (bytes : Bytes)
    → i ≤ length bytes
    → len < 2 ^ (i * 7)
    → 2 ^ (i * 7) * 128 ^ rounds ≤ 2 ^ 63
    → (varint_loop rounds i field_number len bytes ≢ panic)
      × ((n j : ℕ)
          → varint_loop rounds i field_number len bytes ≡ ok (n, j)
          → (n < 2 ^ 63) × (j < length bytes))
varint_loop_bounds zero i field_number len bytes within low fit =
    unfold varint_loop in ((λ h. cc), λ n j h. cc)
varint_loop_bounds (suc rounds) i field_number len bytes within low fit =
    elim (drop-cases i bytes within) [
      | inl e ↦
          let short = varint_loop_short rounds i field_number len bytes e in
          ((λ h. ground (arith, short)), λ n j h. absurd (ground (arith, short)))
      | inr (byte, rest, there) ↦
          let low' = low_next i len byte low in
          let room = weight_next rounds i (2 ^ 63) fit in
          let (more, _) = drop_cons i bytes there in
          let round =
            varint_loop-step rounds i field_number len byte bytes rest there (omega arith) in
          let (safe, ih) =
            varint_loop_bounds rounds (i + 1) field_number (len + byte % 128 * 2 ^ (i * 7)) bytes
              (omega arith) low' (fit_next rounds i (2 ^ 63) fit) in
          (λ h. ground (arith, round, safe), λ n j h. ground (arith, round, ih n j))
    ]
