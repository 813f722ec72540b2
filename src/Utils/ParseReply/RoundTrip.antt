-- ===== src/Utils/ParseReply/RoundTrip.antt =====
-- The answers of packages/utils/src/parse_reply.rs, as the chain writes them and as they are read.
use demurrage_token.Base.{
  ℕ, ◌^◌, ◌<◌, ◌≡◌, ◌≢◌, arith, true, inl, inr, refl, Option, none, some, Bytes, [], ◌∷◌, ◌++◌,
  length, append-nil,
}
use demurrage_token.Outcome.{ok, panic, value_or}
use demurrage_token.Utils.ParseReply.{
  MsgInstantiateContractResponse, MsgExecuteContractResponse, ReplyResult,
  parse_protobuf_length_prefixed, parse_protobuf_string, parse_protobuf_bytes, optional_bytes,
  parse_instantiate_response_data, parse_execute_response_data, parse_reply_instantiate_data,
  parse_reply_execute_data,
}
use demurrage_token.Utils.ParseReply.Utf8.{is_utf8}
use demurrage_token.Utils.ParseReply.Field.{
  write_field, parse_protobuf_length_prefixed-write_field, parse_protobuf_length_prefixed_safe,
}

-- An optional field is left out where there is nothing.
unfoldable pub write_optional : ℕ → Option Bytes → Bytes
write_optional field_number none = []
write_optional field_number (some b) = write_field field_number b

unfoldable pub write_instantiate_response : MsgInstantiateContractResponse → Bytes
write_instantiate_response r = write_field 1 r.contract_address ++ write_optional 2 r.payload

unfoldable pub write_execute_response : MsgExecuteContractResponse → Bytes
write_execute_response r = write_optional 1 r.payload

module _ (usize : ℕ) where
  -- A length that is written and read whole.
  abbrev pub IsReadable : Bytes → Type 0
  IsReadable b = (length b < 2 ^ 63) × (length b < usize)

  -- Optional data that is there is not empty.
  abbrev pub IsOptional : Option Bytes → Type 0
  IsOptional none = Unit
  IsOptional (some b) = (0 < length b) × IsReadable b

  parse_protobuf_string-write_field :
      (field_number : ℕ) (b rest : Bytes)
      → IsReadable b
      → is_utf8 b ≡ true
      → parse_protobuf_string usize (write_field field_number b ++ rest) field_number ≡ ok (b, rest)
  unfolding parse_protobuf_string
  parse_protobuf_string-write_field field_number b rest fit text =
      let read = parse_protobuf_length_prefixed-write_field usize field_number b rest fit.0 fit.1 in
      ground (arith, read, text)

  parse_protobuf_bytes-write_optional :
      (field_number : ℕ) (o : Option Bytes)
      → IsOptional o
      → parse_protobuf_bytes usize (write_optional field_number o) field_number ≡ ok (o, [])
  unfolding parse_protobuf_bytes write_optional optional_bytes
  parse_protobuf_bytes-write_optional field_number none fit =
      unfold parse_protobuf_length_prefixed in refl
  parse_protobuf_bytes-write_optional field_number (some []) fit = absurd (omega arith)
  parse_protobuf_bytes-write_optional field_number (some (c ∷ r)) fit =
      let b = c ∷ r in
      let read =
        parse_protobuf_length_prefixed-write_field usize field_number b [] fit.1.0 fit.1.1 in
      let all = append-nil (write_field field_number b) in ground (arith, read, all)

  -- An answer to an instantiation, whose address is a text and whose data, if there is any, is not
  -- empty, is read back from the reply that carries it, with lengths below 2^63 that fit in a
  -- `usize`.
  pub parse_reply_instantiate_data-write :
      (r : MsgInstantiateContractResponse)
      → IsReadable r.contract_address
      → is_utf8 r.contract_address ≡ true
      → IsOptional r.payload
      → parse_reply_instantiate_data usize (inr (some (write_instantiate_response r))) ≡ ok r
  unfolding parse_reply_instantiate_data parse_instantiate_response_data write_instantiate_response
  parse_reply_instantiate_data-write r fit text fit' =
      let address =
        parse_protobuf_string-write_field 1 r.contract_address (write_optional 2 r.payload) fit
          text in
      let inner = parse_protobuf_bytes-write_optional 2 r.payload fit' in
      ground (arith, address, inner)

  -- An answer to an execution, whose data, if there is any, is not empty, is read back from the
  -- reply that carries it, with a length below 2^63 that fits in a `usize`.
  pub parse_reply_execute_data-write :
      (r : MsgExecuteContractResponse)
      → IsOptional r.payload
      → parse_reply_execute_data usize (inr (some (write_execute_response r))) ≡ ok r
  unfolding parse_reply_execute_data parse_execute_response_data write_execute_response
  parse_reply_execute_data-write r fit =
      let inner = parse_protobuf_bytes-write_optional 1 r.payload fit in ground (arith, inner)

  parse_protobuf_string_safe :
      (bytes : Bytes) (field_number : ℕ) → parse_protobuf_string usize bytes field_number ≢ panic
  unfolding parse_protobuf_string
  parse_protobuf_string_safe bytes field_number h =
      let safe = parse_protobuf_length_prefixed_safe usize bytes field_number in
      ground (arith, safe)

  parse_protobuf_bytes_safe :
      (bytes : Bytes) (field_number : ℕ) → parse_protobuf_bytes usize bytes field_number ≢ panic
  unfolding parse_protobuf_bytes
  parse_protobuf_bytes_safe bytes field_number h =
      let safe = parse_protobuf_length_prefixed_safe usize bytes field_number in
      ground (arith, safe)

  parse_instantiate_response_data_safe :
      (bytes : Bytes) → parse_instantiate_response_data usize bytes ≢ panic
  unfolding parse_instantiate_response_data
  parse_instantiate_response_data_safe bytes h =
      let rest = (value_or ([], []) (parse_protobuf_string usize bytes 1)).1 in
      let safe = parse_protobuf_string_safe bytes 1 in
      let safe' = parse_protobuf_bytes_safe rest 2 in ground (arith, safe, safe')

  parse_execute_response_data_safe :
      (bytes : Bytes) → parse_execute_response_data usize bytes ≢ panic
  unfolding parse_execute_response_data
  parse_execute_response_data_safe bytes h =
      let safe = parse_protobuf_bytes_safe bytes 1 in ground (arith, safe)

  -- Whatever a reply holds, reading it as either answer never panics: no index, slice or split is
  -- past the end, and no sum overflows.
  pub parse_reply_safe :
      (msg : ReplyResult)
      → (parse_reply_instantiate_data usize msg ≢ panic)
        × (parse_reply_execute_data usize msg ≢ panic)
  unfolding parse_reply_instantiate_data parse_reply_execute_data
  parse_reply_safe (inl e) = ((λ h. cc), (λ h. cc))
  parse_reply_safe (inr none) = ((λ h. cc), (λ h. cc))
  parse_reply_safe (inr (some b)) =
      (parse_instantiate_response_data_safe b, parse_execute_response_data_safe b)
