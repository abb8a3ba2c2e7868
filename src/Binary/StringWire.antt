-- ===== src/Binary/StringWire.antt =====
-- Strings, Guids and localized texts write and read the forms of OPC UA part 6, section 5.2.2.
use opc_ua.Common.{
  ℕ, ◌+◌, ◌%◌, ◌^◌, ◌<◌, ◌≤◌, ◌≡◌, refl, subst, arith, Bool, true, false, le→ltb, List, [], ◌∷◌,
  ◌++◌, length, length-append, bit_or,
}
use opc_ua.Status.{bad_internal_error}
use opc_ua.Types.{
  UaString, null_string, empty_string, chars, content, Guid, LocalizedText, IsString, IsGuid,
}
use opc_ua.Binary.Stream.{Allocator, to_le, encode_if, decode_if, test_bit}
use opc_ua.Binary.Wire.{
  Writes, Reads, store-append, length_middle, Writes-skip, Writes-then, Reads-pure, Reads-bind,
  Reads-map, Reads-checked, Reads-on_error,
}
use opc_ua.Binary.WordWire.{
  load_middle, room_middle, Writes-uint16, Reads-uint16, Writes-uint32, Reads-uint32, Writes-byte,
  Reads-byte,
}
use opc_ua.Binary.Integers.{uint32_encode, byte_encode, uint16_decode, uint32_decode, byte_decode}
use opc_ua.Binary.Strings.{
  memory_copy, string_body_encode, string_encode, chars_decode, string_body_decode, string_decode,
  bytes_encode, bytes_decode, guid_encode, guid_decode, has_data, mask_bit, localized_text_encode,
  localized_text_decode,
}

-- A length as an Int32, -1 for the null string, and the bytes.
abbrev pub string_wire : UaString → List ℕ
string_wire null_string = to_le 4 0xffff_ffff
string_wire empty_string = to_le 4 0
string_wire (chars bs) = to_le 4 (length bs) ++ bs

-- The four members, each lowest byte first.
abbrev pub guid_wire : Guid → List ℕ
guid_wire g = to_le 4 g.data1 ++ to_le 2 g.data2 ++ to_le 2 g.data3 ++ g.data4

Writes-memory_copy : (bs : List ℕ) → Writes (memory_copy bs) bs
unfolding memory_copy
Writes-memory_copy bs = record {
  run =
      λ pre mid post h. rw (room_middle pre mid post (length bs) h, store-append pre mid post bs h);
}

Writes-string_body : (v : UaString) → IsString v → Writes (string_body_encode v) (string_wire v)
unfolding string_body_encode
Writes-string_body null_string h = Writes-uint32 0xffff_ffff
Writes-string_body empty_string h = Writes-uint32 0
Writes-string_body (chars bs) h =
    let fits : length bs % 2 ^ 32 ≡ length bs = omega arith in
    rw fits (
      Writes-then (uint32_encode (length bs)) (memory_copy bs) (Writes-uint32 (length bs))
        (Writes-memory_copy bs))

content-le : (v : UaString) → length (content v) ≤ length (string_wire v)
content-le null_string = omega arith
content-le empty_string = omega arith
content-le (chars bs) = omega (arith, length-append (to_le 4 (length bs)) bs)

pub Writes-string : (v : UaString) → IsString v → Writes (string_encode v) (string_wire v)
unfolding string_encode
Writes-string v h = record {
  run = λ pre mid post e.
      rw
        (le→ltb (length (pre ++ (mid ++ post))) (length pre + length (content v))
          (omega (arith, length_middle pre mid post, content-le v)))
        ((Writes-string_body v h).run pre mid post e);
}

module _ ⦃memory : Allocator⦄
    (plenty : (offset size : ℕ) → memory.succeeds offset size ≡ true) where
  Reads-chars : (bs : List ℕ) → Reads (chars_decode (length bs)) bs (chars bs)
  unfolding chars_decode
  Reads-chars bs = record {
    run = λ pre post. rw (
      room_middle pre bs post (length bs) refl,
      plenty (length pre) (length bs),
      load_middle pre bs post (length bs) refl,
    );
  }

  string_body_decode-chars : (n : ℕ) → 0 < n → n < 2 ^ 31 → string_body_decode n ≡ chars_decode n
  unfolding string_body_decode
  string_body_decode-chars n lo hi = ground arith

  pub Reads-string : (v : UaString) → IsString v → Reads string_decode (string_wire v) v
  unfolding string_decode
  Reads-string null_string h =
      Reads-checked uint32_decode string_body_decode (Reads-uint32 0xffff_ffff (omega arith))
        (unfold string_body_decode in Reads-pure null_string) (λ _. bad_internal_error) null_string
  Reads-string empty_string h =
      Reads-checked uint32_decode string_body_decode (Reads-uint32 0 (omega arith))
        (unfold string_body_decode in Reads-pure empty_string) (λ _. bad_internal_error) null_string
  Reads-string (chars bs) h =
      Reads-checked uint32_decode string_body_decode (Reads-uint32 (length bs) (omega arith))
        (rw (string_body_decode-chars (length bs) (omega arith) (omega arith)) (Reads-chars bs))
        (λ _. bad_internal_error) null_string

Writes-bytes : (bs : List ℕ) → Writes (bytes_encode bs) bs
unfolding bytes_encode
Writes-bytes [] = Writes-skip
Writes-bytes (b ∷ bs) =
    Writes-then (byte_encode b) (bytes_encode bs) (Writes-byte b) (Writes-bytes bs)

Reads-bytes : (bs : List ℕ) → Reads (bytes_decode (length bs)) bs bs
unfolding bytes_decode
Reads-bytes [] = Reads-pure []
Reads-bytes (b ∷ bs) =
    Reads-bind byte_decode _ (Reads-byte b)
      (Reads-map (bytes_decode (length bs)) _ (Reads-bytes bs))

pub Writes-guid : (g : Guid) → Writes (guid_encode g) (guid_wire g)
unfolding guid_encode
Writes-guid g =
    Writes-then _ _
      (Writes-then _ _ (Writes-then _ _ (Writes-uint32 g.data1) (Writes-uint16 g.data2))
        (Writes-uint16 g.data3))
      (Writes-bytes g.data4)

pub Reads-guid : (g : Guid) → IsGuid g → Reads guid_decode (guid_wire g) g
unfolding guid_decode
Reads-guid g h = Reads-bind uint32_decode _ (Reads-uint32 g.data1 h.data1) (
    Reads-bind uint16_decode _ (Reads-uint16 g.data2 h.data2) (
      Reads-bind uint16_decode _ (Reads-uint16 g.data3 h.data3) (
        Reads-map (bytes_decode 8) _
          (subst (λ n. Reads (bytes_decode n) g.data4 g.data4) h.eight (Reads-bytes g.data4)))))

-- A byte that says which strings follow, and those strings.
abbrev pub optional_wire : UaString → List ℕ
optional_wire null_string = []
optional_wire s = string_wire s

abbrev pub localized_text_wire : LocalizedText → List ℕ
localized_text_wire t =
    bit_or (mask_bit (has_data t.locale) 1) (mask_bit (has_data t.text) 2) ∷ optional_wire t.locale
    ++ optional_wire t.text

Writes-optional :
    (s : UaString)
    → IsString s
    → Writes (encode_if (has_data s) (string_encode s)) (optional_wire s)
Writes-optional null_string h = Writes-skip
Writes-optional empty_string h = Writes-string empty_string h
Writes-optional (chars bs) h = Writes-string (chars bs) h

pub Writes-localized_text :
    (t : LocalizedText)
    → IsString t.locale
    → IsString t.text
    → Writes (localized_text_encode t) (localized_text_wire t)
unfolding localized_text_encode
Writes-localized_text t hl ht =
    Writes-then _ _ (Writes-then _ _ (Writes-byte _) (Writes-optional t.locale hl))
      (Writes-optional t.text ht)

-- The flags in the mask, whatever the other one is.
mask_flags :
    (a b : Bool)
    → let m = bit_or (mask_bit a 1) (mask_bit b 2) in (test_bit m 1 ≡ a) × (test_bit m 2 ≡ b)
mask_flags true true = (refl, refl)
mask_flags true false = (refl, refl)
mask_flags false true = (refl, refl)
mask_flags false false = (refl, refl)

module _ ⦃memory : Allocator⦄
    (plenty : (offset size : ℕ) → memory.succeeds offset size ≡ true) where
  Reads-optional :
      (s : UaString)
      → IsString s
      → Reads (decode_if (has_data s) null_string string_decode) (optional_wire s) s
  Reads-optional null_string h = Reads-pure null_string
  Reads-optional empty_string h = Reads-string plenty empty_string h
  Reads-optional (chars bs) h = Reads-string plenty (chars bs) h

  pub Reads-localized_text :
      (t : LocalizedText)
      → IsString t.locale
      → IsString t.text
      → Reads localized_text_decode (localized_text_wire t) t
  unfolding localized_text_decode
  Reads-localized_text t hl ht =
      let flags = mask_flags (has_data t.locale) (has_data t.text) in
      Reads-on_error _ _ (
        Reads-bind byte_decode _ (Reads-byte _) (
          rw (flags.0, flags.1)
            (Reads-bind _ _ (Reads-optional t.locale hl)
              (Reads-map _ _ (Reads-optional t.text ht)))))
