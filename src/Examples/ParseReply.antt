-- ===== src/Examples/ParseReply.antt =====
-- Replies with an address and data.
use demurrage_token.Base.{◌^◌, ◌+◌, ◌≡◌, ◌≢◌, arith, refl, inr, some, bytes, Bytes, [], ◌∷◌, ◌++◌}
use demurrage_token.Outcome.{ok, panic}
use demurrage_token.Outcome.Word.{mod32, mod64}
use demurrage_token.Utils.ParseReply.{
  MsgInstantiateContractResponse, parse_protobuf_varint, parse_protobuf_length_prefixed,
  parse_reply_instantiate_data, parse_reply_execute_data, varint_loop, byte_at, slice_from,
}
use demurrage_token.Utils.ParseReply.Utf8.{is_utf8}
use demurrage_token.Utils.ParseReply.Varint.{write_varint}
use demurrage_token.Utils.ParseReply.Field.{
  write_field, parse_protobuf_varint-write_varint, parse_protobuf_length_prefixed-wire_type,
}
use demurrage_token.Utils.ParseReply.RoundTrip.{
  write_instantiate_response, write_optional, parse_reply_instantiate_data-write, parse_reply_safe,
}

abbrev contract : Bytes
contract = bytes "contract"

abbrev answer : MsgInstantiateContractResponse
answer = record { contract_address = contract; payload = some (bytes "hi") }

-- The bytes of the answer.
abbrev written : Bytes
written = 10 ∷ 8 ∷ (contract ++ 18 ∷ 2 ∷ bytes "hi")

written_lem : write_instantiate_response answer ≡ written
unfolding write_instantiate_response write_optional write_field write_varint
written_lem = refl

parse_reply_instantiate_data-write_example :
    parse_reply_instantiate_data mod32 (inr (some written)) ≡ ok answer
unfolding write_instantiate_response write_optional write_field write_varint is_utf8
parse_reply_instantiate_data-write_example =
    parse_reply_instantiate_data-write mod32 answer (omega arith) refl (omega arith)

-- Where a `usize` has 32 bits, a length of 2^32 + 5 is read as 5.
parse_protobuf_varint-write_varint_example :
    parse_protobuf_varint mod32 (0x85 ∷ 0x80 ∷ 0x80 ∷ 0x80 ∷ 0x10 ∷ 7 ∷ []) 1 ≡ ok (5, 7 ∷ [])
unfolding write_varint
parse_protobuf_varint-write_varint_example =
    parse_protobuf_varint-write_varint mod32 1 (2 ^ 32 + 5) (7 ∷ []) (omega arith)

parse_protobuf_length_prefixed-wire_type_example :
    parse_protobuf_length_prefixed mod64 (14 ∷ 1 ∷ 65 ∷ []) 1
    ≡ parse_protobuf_length_prefixed mod64 (10 ∷ 1 ∷ 65 ∷ []) 1
parse_protobuf_length_prefixed-wire_type_example =
    parse_protobuf_length_prefixed-wire_type mod64 1 1 (1 ∷ 65 ∷ [])

-- The field of the type 6 is not refused.
type_six_read : parse_protobuf_length_prefixed mod64 (14 ∷ 1 ∷ 65 ∷ []) 1 ≡ ok (65 ∷ [], [])
unfolding parse_protobuf_length_prefixed parse_protobuf_varint varint_loop byte_at slice_from
type_six_read = refl

-- A reply whose length runs past its end.
parse_reply_safe_example :
    (parse_reply_instantiate_data mod64 (inr (some (10 ∷ 200 ∷ 1 ∷ []))) ≢ panic)
    × (parse_reply_execute_data mod64 (inr (some (10 ∷ 200 ∷ 1 ∷ []))) ≢ panic)
parse_reply_safe_example = parse_reply_safe mod64 (inr (some (10 ∷ 200 ∷ 1 ∷ [])))
