-- ===== src/Binary/Integers.antt =====
-- src/ua_types_encoding_binary.c: Boolean, Byte, UInt16, UInt32, UInt64. On a little-endian
-- machine the signed types, StatusCode, DateTime, Float and Double share these functions: a value
-- is its bit pattern.
use opc_ua.Common.{ℕ, ◌+◌, Bool, true, false, ltb, if◌then◌else◌, length, take, drop, get_or, set}
use opc_ua.Status.{good, bad_encoding_error, bad_decoding_error}
use opc_ua.Binary.Stream.{done, Encoder, Decoder, store, to_le, from_le}

-- The check of the room, the `n` bytes of the word, lowest first, and `*offset += n`.
unfoldable pub word_encode : ℕ → ℕ → Encoder
word_encode n v s =
    if ltb (length s.bytes) (s.offset + n)
    then done bad_encoding_error s
    else done good (record { bytes = store s.bytes s.offset (to_le n v); offset = s.offset + n })

unfoldable pub word_decode : ℕ → Decoder ℕ
word_decode n s =
    if ltb (length s.bytes) (s.offset + n)
    then record { status = bad_decoding_error; value = 0; stream = s }
    else record {
      status = good;
      value = from_le (take n (drop s.offset s.bytes));
      stream = record s { offset = s.offset + n };
    }

abbrev pub bool_byte : Bool → ℕ
bool_byte true = 1
bool_byte false = 0

unfoldable pub boolean_encode : Bool → Encoder
boolean_encode b s =
    if ltb (length s.bytes) (s.offset + 1)
    then done bad_encoding_error s
    else done good (record { bytes = set s.bytes s.offset (bool_byte b); offset = s.offset + 1 })

unfoldable pub boolean_decode : Decoder Bool
boolean_decode s =
    if ltb (length s.bytes) (s.offset + 1)
    then record { status = bad_decoding_error; value = false; stream = s }
    else record {
      status = good;
      value = ltb 0 (get_or s.bytes s.offset 0);
      stream = record s { offset = s.offset + 1 };
    }

unfoldable pub byte_encode : ℕ → Encoder
byte_encode v s =
    if ltb (length s.bytes) (s.offset + 1)
    then done bad_encoding_error s
    else done good (record { bytes = set s.bytes s.offset v; offset = s.offset + 1 })

unfoldable pub byte_decode : Decoder ℕ
byte_decode s =
    if ltb (length s.bytes) (s.offset + 1)
    then record { status = bad_decoding_error; value = 0; stream = s }
    else record {
      status = good;
      value = get_or s.bytes s.offset 0;
      stream = record s { offset = s.offset + 1 };
    }

unfoldable pub uint16_encode : ℕ → Encoder
unfolding word_encode
uint16_encode = word_encode 2

unfoldable pub uint16_decode : Decoder ℕ
unfolding word_decode
uint16_decode = word_decode 2

unfoldable pub uint32_encode : ℕ → Encoder
unfolding word_encode
uint32_encode = word_encode 4

unfoldable pub uint32_decode : Decoder ℕ
unfolding word_decode
uint32_decode = word_decode 4

unfoldable pub uint64_encode : ℕ → Encoder
unfolding word_encode
uint64_encode = word_encode 8

unfoldable pub uint64_decode : Decoder ℕ
unfolding word_decode
uint64_decode = word_decode 8
