-- ===== src/Utils/ParseReply/Field.antt =====
-- The length-prefixed fields of packages/utils/src/parse_reply.rs, read and written.
use demurrage_token.Base.{
  ℕ, ◌+◌, ◌*◌, ◌/◌, ◌%◌, ◌^◌, ◌<◌, ◌≡◌, ◌≢◌, arith, refl, Bytes, [], ◌∷◌, ◌++◌, length, take-append,
  drop-append, length-append, append_assoc,
}
use demurrage_token.Outcome.{ok, panic, value_or}
use demurrage_token.Utils.ParseReply.{
  varint_loop, slice_from, parse_protobuf_varint, parse_protobuf_length_prefixed,
}
use demurrage_token.Utils.ParseReply.Varint.{
  write_varint, varint_loop-write_varint, varint_loop_bounds,
}

-- A field: the number and the wire type 2, the length, and the bytes.
unfoldable pub write_field : ℕ → Bytes → Bytes
write_field field_number b = (field_number * 8 + 2) ∷ (write_varint 9 (length b) ++ b)

module _ (usize : ℕ) where
  -- A number below 2^63 that was written before any other bytes is read back modulo the number of
  -- values of a `usize`, and the other bytes are left.
  pub parse_protobuf_varint-write_varint :
      (field_number n : ℕ) (rest : Bytes)
      → n < 2 ^ 63
      → parse_protobuf_varint usize (write_varint 9 n ++ rest) field_number ≡ ok (n % usize, rest)
  unfolding parse_protobuf_varint
  parse_protobuf_varint-write_varint field_number n rest small =
      let (j, read, left) =
        varint_loop-write_varint 9 0 field_number 0 n (write_varint 9 n ++ rest) rest refl small
          (omega arith) (omega arith) (omega arith) in
      ground (arith, read, left)

  -- A field of a length below 2^63 that fits in a `usize`, written before any other bytes, is read
  -- back, and the other bytes are left.
  pub parse_protobuf_length_prefixed-write_field :
      (field_number : ℕ) (b rest : Bytes)
      → length b < 2 ^ 63
      → length b < usize
      → parse_protobuf_length_prefixed usize (write_field field_number b ++ rest) field_number
        ≡ ok (b, rest)
  unfolding parse_protobuf_length_prefixed write_field
  parse_protobuf_length_prefixed-write_field field_number b rest small fit =
      let read = parse_protobuf_varint-write_varint field_number (length b) (b ++ rest) small in
      let same : length b % usize ≡ length b = grind arith in
      let key : (field_number * 8 + 2) / 8 ≡ field_number = omega arith in
      let wire : (field_number * 8 + 2) % 4 ≡ 2 = omega arith in
      rw (append_assoc (write_varint 9 (length b)) b rest) (
        ground
          (arith, read, key, wire, take-append b rest, drop-append b rest, length-append b rest))

  -- Reading a number never panics.
  parse_protobuf_varint_safe :
      (bytes : Bytes) (field_number : ℕ) → parse_protobuf_varint usize bytes field_number ≢ panic
  unfolding parse_protobuf_varint slice_from
  parse_protobuf_varint_safe bytes field_number h =
      let (safe, ends) =
        varint_loop_bounds 9 0 field_number 0 bytes (omega arith) (omega arith) (omega arith) in
      let read = value_or (0, 0) (varint_loop 9 0 field_number 0 bytes) in
      ground (arith, safe, ends read.0 read.1)

  -- Whatever the bytes are, reading a field never panics.
  pub parse_protobuf_length_prefixed_safe :
      (bytes : Bytes) (field_number : ℕ)
      → parse_protobuf_length_prefixed usize bytes field_number ≢ panic
  unfolding parse_protobuf_length_prefixed
  parse_protobuf_length_prefixed_safe [] field_number h = cc
  parse_protobuf_length_prefixed_safe (key ∷ bytes) field_number h =
      let safe = parse_protobuf_varint_safe bytes field_number in ground (arith, safe)

  -- Of the three bits of the wire type only two are looked at: a field with the undefined type 6
  -- is read as one with the type 2, whatever follows.
  pub parse_protobuf_length_prefixed-wire_type :
      (number field_number : ℕ) (bytes : Bytes)
      → parse_protobuf_length_prefixed usize ((number * 8 + 6) ∷ bytes) field_number
        ≡ parse_protobuf_length_prefixed usize ((number * 8 + 2) ∷ bytes) field_number
  unfolding parse_protobuf_length_prefixed
  parse_protobuf_length_prefixed-wire_type number field_number bytes =
      let six : (number * 8 + 6) / 8 ≡ number = omega arith in
      let two : (number * 8 + 2) / 8 ≡ number = omega arith in
      let wire : (number * 8 + 6) % 4 ≡ 2 = omega arith in
      let wire' : (number * 8 + 2) % 4 ≡ 2 = omega arith in rw (six, two, wire, wire') refl
