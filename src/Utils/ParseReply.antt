-- ===== src/Utils/ParseReply.antt =====
-- packages/utils/src/parse_reply.rs: the answers of a contract that was instantiated or executed,
-- read from protobuf bytes. A text is its bytes, and `String::from_utf8` checks them. What
-- `format!` prints is a value with the printed numbers.
pub mod Varint
pub mod Field
pub mod Utf8
pub mod RoundTrip
use demurrage_token.Base.{
  ℕ, zero, suc, ◌+◌, ◌*◌, ◌/◌, ◌%◌, ◌^◌, ◌==◌, ltb, if◌then◌else◌, not, Option, none, some, ◌⊎◌,
  inl, inr, Bytes, [], ◌∷◌, length, take, drop,
}
use demurrage_token.Outcome.{Outcome, ok, err, panic, ◌>>=◌, ◌>>◌, guard}
use demurrage_token.Outcome.Word.{mod64, add64}
use demurrage_token.Utils.ParseReply.Utf8.{is_utf8}

abbrev pub wire_type_length_delimited : ℕ
wire_type_length_delimited = 2

abbrev pub varint_max_bytes : ℕ
varint_max_bytes = 9

pub record MsgInstantiateContractResponse : Type 0 where
  pub contract_address : Bytes
  pub payload : Option Bytes

pub record MsgExecuteContractResponse : Type 0 where
  pub payload : Option Bytes

-- The texts of `ParseFailure`.
pub data Failure : Type 0 where
  missing_reply_data : Failure
  varint_too_short : (field_number : ℕ) → Failure
  varint_too_long : (field_number : ℕ) → Failure
  invalid_field : (field field_number : ℕ) → Failure
  invalid_wire_type : (field_number wire_type : ℕ) → Failure
  message_too_short : (field_number : ℕ) → Failure

-- `broken_utf8` holds the bytes, as `FromUtf8Error` does.
pub data ParseReplyError : Type 0 where
  sub_msg_failure : Bytes → ParseReplyError
  parse_failure : Failure → ParseReplyError
  broken_utf8 : Bytes → ParseReplyError

-- A value that was read, and what is left of the data.
abbrev pub Parsed : Type 0 → Type 0
Parsed A = Outcome ParseReplyError (A × Bytes)

-- `data[i]`, which panics past the end.
abbrev first : Bytes → Outcome ParseReplyError ℕ
first [] = panic
first (byte ∷ rest) = ok byte

unfoldable pub byte_at : ℕ → Bytes → Outcome ParseReplyError ℕ
byte_at i bytes = first (drop i bytes)

-- `data[n..]`, which panics where `n` is past the end.
unfoldable pub slice_from : ℕ → Bytes → Outcome ParseReplyError Bytes
slice_from n bytes = if ltb (length bytes) n then panic else ok (drop n bytes)

-- `data.split_off(n)`, which panics where `n` is past the end: what stays in `data`, and what is
-- returned.
abbrev pub split_off : ℕ → Bytes → Parsed Bytes
split_off n bytes = if ltb (length bytes) n then panic else ok (take n bytes, drop n bytes)

-- The loop, with `rounds` rounds left before `i` is `varint_max_bytes`: the number that was read,
-- and the `i` of the break. `<<` on u64 drops what does not fit.
unfoldable pub varint_loop :
    (rounds i field_number len : ℕ) → Bytes → Outcome ParseReplyError (ℕ × ℕ)
varint_loop zero i field_number len bytes = err (parse_failure (varint_too_long field_number))
varint_loop (suc rounds) i field_number len bytes =
    guard (not (length bytes == i)) (parse_failure (varint_too_short field_number)) >>= λ _.
    byte_at i bytes >>= λ byte. add64 len (byte % 128 * 2 ^ (i * 7) % mod64) >>= λ len'.
    let more = varint_loop rounds (i + 1) field_number len' bytes in
    if byte / 128 % 2 == 0 then ok (len', i) else more

-- An empty field is no data.
unfoldable pub optional_bytes : Bytes → Option Bytes
optional_bytes [] = none
optional_bytes (b ∷ r) = some (b ∷ r)

-- What `msg.result.into_result()` gives: the error's text, or the response's data.
abbrev pub ReplyResult : Type 0
ReplyResult = Bytes ⊎ Option Bytes

abbrev pub reply_data : ReplyResult → Outcome ParseReplyError Bytes
reply_data (inl e) = err (sub_msg_failure e)
reply_data (inr none) = err (parse_failure missing_reply_data)
reply_data (inr (some b)) = ok b

-- `usize` is the number of values of the target's `usize`, 2^32 or 2^64.
module _ (usize : ℕ) where
  unfoldable pub parse_protobuf_varint : Bytes → ℕ → Parsed ℕ
  parse_protobuf_varint bytes field_number = do
    (len, i) ← varint_loop varint_max_bytes 0 field_number 0 bytes
    rest ← slice_from (i + 1) bytes
    ok (len % usize, rest)

  -- Of data that is not empty, `split_off(1)` and `data[0]` are the tail and the head.
  unfoldable pub parse_protobuf_length_prefixed : Bytes → ℕ → Parsed Bytes
  parse_protobuf_length_prefixed [] field_number = ok ([], [])
  parse_protobuf_length_prefixed (key ∷ rest_1) field_number = do
    guard (key / 8 == field_number) (parse_failure (invalid_field (key / 8) field_number))
    guard (key % 4 == wire_type_length_delimited)
        (parse_failure (invalid_wire_type field_number (key % 4)))
    (len, message) ← parse_protobuf_varint rest_1 field_number
    guard (not (ltb (length message) len)) (parse_failure (message_too_short field_number))
    split_off len message

  unfoldable pub parse_protobuf_string : Bytes → ℕ → Parsed Bytes
  parse_protobuf_string bytes field_number = do
    (str_field, rest) ← parse_protobuf_length_prefixed bytes field_number
    guard (is_utf8 str_field) (broken_utf8 str_field)
    ok (str_field, rest)

  unfoldable pub parse_protobuf_bytes : Bytes → ℕ → Parsed (Option Bytes)
  unfolding optional_bytes
  parse_protobuf_bytes bytes field_number = do
    (bytes_field, rest) ← parse_protobuf_length_prefixed bytes field_number
    ok (optional_bytes bytes_field, rest)

  unfoldable pub parse_instantiate_response_data :
      Bytes → Outcome ParseReplyError MsgInstantiateContractResponse
  parse_instantiate_response_data bytes = do
    (contract_addr, rest) ← parse_protobuf_string bytes 1
    (inner, _) ← parse_protobuf_bytes rest 2
    ok (record { contract_address = contract_addr; payload = inner })

  unfoldable pub parse_execute_response_data :
      Bytes → Outcome ParseReplyError MsgExecuteContractResponse
  parse_execute_response_data bytes = do
    (inner, _) ← parse_protobuf_bytes bytes 1
    ok (record { payload = inner })

  unfoldable pub parse_reply_instantiate_data :
      ReplyResult → Outcome ParseReplyError MsgInstantiateContractResponse
  parse_reply_instantiate_data msg = reply_data msg >>= parse_instantiate_response_data

  unfoldable pub parse_reply_execute_data :
      ReplyResult → Outcome ParseReplyError MsgExecuteContractResponse
  parse_reply_execute_data msg = reply_data msg >>= parse_execute_response_data
