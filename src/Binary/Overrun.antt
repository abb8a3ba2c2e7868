-- ===== src/Binary/Overrun.antt =====
-- `String_encodeBinary` of src/ua_types_encoding_binary.c checks the room for the bytes of the
-- string, and not for the four bytes of the length that it writes before them.
use opc_ua.Common.{
  ℕ, zero, suc, ap, [], ◌∷◌, ◌+◌, ◌%◌, ◌^◌, ◌≤◌, ◌<◌, ◌≡◌, ◌↔◌, refl, arith, List, length,
}
use opc_ua.Types.{chars}
use opc_ua.Binary.Stream.{Stream, overrun, ◌then_encode◌, store, to_le}
use opc_ua.Binary.Integers.{word_encode, uint32_encode}
use opc_ua.Binary.Strings.{memory_copy, string_body_encode, string_encode}

length-store : (xs : List ℕ) (i : ℕ) (cs : List ℕ) → length (store xs i cs) ≡ length xs
length-store [] i cs = refl
length-store (x ∷ xs) (suc i) cs = ap suc (length-store xs i cs)
length-store (x ∷ xs) zero [] = refl
length-store (x ∷ xs) zero (c ∷ cs) = ap suc (length-store xs zero cs)

-- A string is written behind the end of the buffer exactly if its bytes and its length field fit
-- one by one, and not both.
pub string_encode-overrun :
    (bs : List ℕ) (s : Stream)
    → (string_encode (chars bs) s ≡ overrun) ↔ (
        (s.offset + length bs ≤ length s.bytes)
        × (s.offset + 4 ≤ length s.bytes)
        × (length s.bytes < s.offset + 4 + length bs))
unfolding string_encode string_body_encode memory_copy uint32_encode word_encode ◌then_encode◌
string_encode-overrun bs s =
    ground (arith, length-store s.bytes s.offset (to_le 4 (length bs % 2 ^ 32)))
