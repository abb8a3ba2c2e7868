-- ===== src/Binary/Strings.antt =====
-- src/ua_types_encoding_binary.c: String (also ByteString and XmlElement), Guid, LocalizedText.
use opc_ua.Common.{
  ℕ, zero, suc, ◌+◌, ◌%◌, ◌^◌, Bool, true, false, ltb, leb, ◌==◌, if◌then◌else◌, List, [], ◌∷◌,
  length, take, drop, bit_or,
}
use opc_ua.Status.{
  good, bad_encoding_error, bad_decoding_error, bad_internal_error, bad_out_of_memory,
}
use opc_ua.Types.{UaString, null_string, empty_string, chars, content, Guid, LocalizedText}
use opc_ua.Binary.Stream.{
  done, overrun, Encoder, ◌then_encode◌, skip, Decoder, ◌>>=◌, pure, checked, store, Allocator,
  encode_if, decode_if, on_error, test_bit,
}
use opc_ua.Binary.Integers.{
  byte_encode, byte_decode, uint16_encode, uint16_decode, uint32_encode, uint32_decode,
}

-- `memcpy(&dst->data[*offset], src, n); *offset += n;`, with no check
unfoldable pub memory_copy : List ℕ → Encoder
memory_copy bs s =
    if ltb (length s.bytes) (s.offset + length bs)
    then overrun
    else done good (record { bytes = store s.bytes s.offset bs; offset = s.offset + length bs })

-- The three forms of the data pointer. -1 is the word 2 ^ 32 - 1.
unfoldable pub string_body_encode : UaString → Encoder
unfolding memory_copy
string_body_encode null_string = uint32_encode 0xffff_ffff
string_body_encode empty_string = uint32_encode 0
string_body_encode (chars bs) = uint32_encode (length bs % 2 ^ 32) then_encode memory_copy bs

-- The check counts the bytes of the string and not those of its length field.
unfoldable pub string_encode : UaString → Encoder
string_encode v s =
    if ltb (length s.bytes) (s.offset + length (content v))
    then done bad_encoding_error s
    else string_body_encode v s

module _ ⦃memory : Allocator⦄ where
  -- The bytes behind a positive length.
  unfoldable pub chars_decode : ℕ → Decoder UaString
  chars_decode n s =
      if ltb (length s.bytes) (s.offset + n)
      then record { status = bad_decoding_error; value = null_string; stream = s }
      else if memory.succeeds s.offset n
      then record {
        status = good;
        value = chars (take n (drop s.offset s.bytes));
        stream = record s { offset = s.offset + n };
      }
      else record { status = bad_out_of_memory; value = null_string; stream = s }

  -- A length of 2 ^ 31 or more is negative.
  unfoldable pub string_body_decode : ℕ → Decoder UaString
  unfolding chars_decode
  string_body_decode n =
      if n == 0
      then pure empty_string
      else if leb (2 ^ 31) n
      then pure null_string
      else chars_decode n

  unfoldable pub string_decode : Decoder UaString
  unfolding string_body_decode
  string_decode = checked uint32_decode (λ _. bad_internal_error) null_string string_body_decode

unfoldable pub bytes_encode : List ℕ → Encoder
bytes_encode [] = skip
bytes_encode (b ∷ bs) = byte_encode b then_encode bytes_encode bs

unfoldable pub bytes_decode : ℕ → Decoder (List ℕ)
bytes_decode zero = pure []
bytes_decode (suc n) = do b ← byte_decode; bs ← bytes_decode n; pure (b ∷ bs)

unfoldable pub guid_encode : Guid → Encoder
guid_encode g =
    uint32_encode g.data1
    then_encode uint16_encode g.data2
    then_encode uint16_encode g.data3
    then_encode bytes_encode g.data4

unfoldable pub guid_decode : Decoder Guid
guid_decode = do
  d1 ← uint32_decode
  d2 ← uint16_decode
  d3 ← uint16_decode
  d4 ← bytes_decode 8
  pure (record { data1 = d1; data2 = d2; data3 = d3; data4 = d4 })

-- `src->locale.data` as a condition
abbrev pub has_data : UaString → Bool
has_data null_string = false
has_data s = true

abbrev pub mask_bit : Bool → ℕ → ℕ
mask_bit true m = m
mask_bit false m = 0

-- Bit 0 of the mask announces the locale, and bit 1 the text.
unfoldable pub localized_text_encode : LocalizedText → Encoder
localized_text_encode t =
    byte_encode (bit_or (mask_bit (has_data t.locale) 1) (mask_bit (has_data t.text) 2))
    then_encode encode_if (has_data t.locale) (string_encode t.locale)
    then_encode encode_if (has_data t.text) (string_encode t.text)

-- `UA_LocalizedText_deleteMembers`
abbrev pub localized_text_delete_members : LocalizedText → LocalizedText
localized_text_delete_members t = record { locale = null_string; text = null_string }

unfoldable pub localized_text_decode : ⦃memory : Allocator⦄ → Decoder LocalizedText
localized_text_decode = on_error localized_text_delete_members do
  mask ← byte_decode
  locale ← decode_if (test_bit mask 1) null_string string_decode
  text ← decode_if (test_bit mask 2) null_string string_decode
  pure (record { locale = locale; text = text })
