-- ===== src/Binary/Safety.antt =====
-- The decoders of src/ua_types_encoding_binary.c stay inside the buffer on every input.
use opc_ua.Common.{
  ℕ, zero, suc, ◌≤◌, ◌≡◌, arith, Bool, true, false, length, length-set, set, get_or, bit_and, leb,
  ◌==◌, if◌then◌else◌, Bool-cases, inl, inr,
}
use opc_ua.Status.{bad_decoding_error, bad_internal_error}
use opc_ua.Types.{Identifier, numeric, string, guid, byte_string, null_node_id}
use opc_ua.Binary.Stream.{
  Stream, Decoded, Decoder, Allocator, ◌>>=◌, pure, fail, checked, decode_if, on_error,
}
use opc_ua.Binary.Integers.{word_decode, byte_decode, uint16_decode, uint32_decode}
use opc_ua.Binary.Strings.{
  chars_decode, string_body_decode, string_decode, bytes_decode, guid_decode, localized_text_decode,
}
use opc_ua.Binary.NodeIds.{
  two_byte_decode, four_byte_decode, complete_decode, node_id_body_decode,
  expanded_node_id_delete_members, null_expanded_node_id, node_id_decode, expanded_body_decode,
  expanded_node_id_decode,
}

-- From a position in the buffer to one that is not before it and still in the buffer, whose
-- length does not change.
pub record IsInside {ℓ} {A : Type ℓ} (s : Stream) (r : Decoded A) : Type 0 where
  pub same_length : length r.stream.bytes ≡ length s.bytes
  pub forward : s.offset ≤ r.stream.offset
  pub within : r.stream.offset ≤ length s.bytes

-- So from every position in every buffer.
pub record IsSafe {ℓ} {A : Type ℓ} (d : Decoder A) : Type ℓ where
  pub run : (s : Stream) → s.offset ≤ length s.bytes → IsInside s (d s)

module _ {ℓ} {A : Type ℓ} where
  pure-IsSafe : (v : A) → IsSafe (pure v)
  pure-IsSafe v = record { run = λ s h. ground arith }

  fail-IsSafe : (status : ℕ) (v : A) → IsSafe (fail status v)
  fail-IsSafe status v = record { run = λ s h. ground arith }

  decode_if-IsSafe : (b : Bool) (v : A) (d : Decoder A) → IsSafe d → IsSafe (decode_if b v d)
  decode_if-IsSafe true v d hd = hd
  decode_if-IsSafe false v d hd = pure-IsSafe v

  on_error-IsSafe : (f : A → A) (d : Decoder A) → IsSafe d → IsSafe (on_error f d)
  unfolding on_error
  on_error-IsSafe f d hd = record { run = λ s h. ground (arith, hd.run s h) }

module _ {ℓ κ} {A : Type ℓ} {B : Type κ} where
  bind-IsSafe :
      (d : Decoder A) (f : A → Decoder B) → IsSafe d → ((a : A) → IsSafe (f a)) → IsSafe (d >>= f)
  unfolding ◌>>=◌
  bind-IsSafe d f hd hf = record {
    run = λ s h.
        let first = hd.run s h in
        let second = (hf (d s).value).run (d s).stream (omega arith) in
        record { same_length = omega arith; forward = omega arith; within = omega arith };
  }

  checked-IsSafe :
      (d : Decoder A) (returned : ℕ → ℕ) (zeroed : B) (f : A → Decoder B)
      → IsSafe d
      → ((a : A) → IsSafe (f a))
      → IsSafe (checked d returned zeroed f)
  unfolding checked
  checked-IsSafe d returned zeroed f hd hf = record {
    run = λ s h.
        let first = hd.run s h in
        let second = (hf (d s).value).run (d s).stream (omega arith) in
        ground (arith, first, second);
  }

module _ {ℓ κ} {A : Type ℓ} {B : Type κ} where
  map-IsSafe : (d : Decoder A) (f : A → B) → IsSafe d → IsSafe (d >>= λ a. pure (f a))
  map-IsSafe d f hd = bind-IsSafe d _ hd (λ a. pure-IsSafe _)

if-IsSafe {ℓ} :
    {A : Type ℓ} (b : Bool) (d e : Decoder A) → IsSafe d → IsSafe e → IsSafe (if b then d else e)
if-IsSafe true d e hd he = hd
if-IsSafe false d e hd he = he

word-IsSafe : (n : ℕ) → IsSafe (word_decode n)
unfolding word_decode
word-IsSafe n = record { run = λ s h. ground arith }

byte-IsSafe : IsSafe byte_decode
unfolding byte_decode
byte-IsSafe = record { run = λ s h. ground arith }

uint16-IsSafe : IsSafe uint16_decode
unfolding uint16_decode
uint16-IsSafe = word-IsSafe 2

uint32-IsSafe : IsSafe uint32_decode
unfolding uint32_decode
uint32-IsSafe = word-IsSafe 4

bytes-IsSafe : (n : ℕ) → IsSafe (bytes_decode n)
unfolding bytes_decode
bytes-IsSafe zero = pure-IsSafe _
bytes-IsSafe (suc n) =
    bind-IsSafe _ _ byte-IsSafe (λ b. bind-IsSafe _ _ (bytes-IsSafe n) (λ bs. pure-IsSafe _))

guid-IsSafe : IsSafe guid_decode
unfolding guid_decode
guid-IsSafe = bind-IsSafe _ _ uint32-IsSafe λ d1.
    bind-IsSafe _ _ uint16-IsSafe
      λ d2. bind-IsSafe _ _ uint16-IsSafe λ d3. bind-IsSafe _ _ (bytes-IsSafe 8) λ d4. pure-IsSafe _

module _ ⦃memory : Allocator⦄ where
  chars-IsSafe : (n : ℕ) → IsSafe (chars_decode n)
  unfolding chars_decode
  chars-IsSafe n = record { run = λ s h. ground arith }

  string_body-IsSafe : (n : ℕ) → IsSafe (string_body_decode n)
  unfolding string_body_decode
  string_body-IsSafe n = record { run = λ s h. ground (arith, (chars-IsSafe n).run s h) }

  string-IsSafe : IsSafe string_decode
  unfolding string_decode
  string-IsSafe = checked-IsSafe _ _ _ _ uint32-IsSafe string_body-IsSafe

  -- On every buffer, `LocalizedText_decodeBinary` leaves the position inside the buffer.
  pub localized_text-IsSafe : IsSafe localized_text_decode
  unfolding localized_text_decode
  localized_text-IsSafe = on_error-IsSafe _ _ (
      bind-IsSafe _ _ byte-IsSafe λ mask.
        bind-IsSafe _ _ (decode_if-IsSafe _ _ _ string-IsSafe)
          λ locale. bind-IsSafe _ _ (decode_if-IsSafe _ _ _ string-IsSafe) λ text. pure-IsSafe _)

  complete-IsSafe : (d : Decoder Identifier) → IsSafe d → IsSafe (complete_decode d)
  unfolding complete_decode
  complete-IsSafe d h = bind-IsSafe _ _ uint16-IsSafe λ ns. map-IsSafe d _ h

  two_byte-IsSafe : IsSafe two_byte_decode
  unfolding two_byte_decode
  two_byte-IsSafe = map-IsSafe _ _ byte-IsSafe

  four_byte-IsSafe : IsSafe four_byte_decode
  unfolding four_byte_decode
  four_byte-IsSafe = bind-IsSafe _ _ byte-IsSafe λ ns. map-IsSafe _ _ uint16-IsSafe

  node_id_body-IsSafe : (encoding : ℕ) → IsSafe (node_id_body_decode encoding)
  unfolding node_id_body_decode
  node_id_body-IsSafe encoding = if-IsSafe (encoding == 0) _ _ two_byte-IsSafe (
      if-IsSafe (encoding == 1) _ _ four_byte-IsSafe (
        if-IsSafe (encoding == 2) _ _
          (complete-IsSafe _ (map-IsSafe uint32_decode numeric uint32-IsSafe))
          (if-IsSafe (encoding == 3) _ _
            (complete-IsSafe _ (map-IsSafe string_decode string string-IsSafe))
            (if-IsSafe (encoding == 4) _ _
              (complete-IsSafe _ (map-IsSafe guid_decode guid guid-IsSafe))
              (if-IsSafe (encoding == 5) _ _
                (complete-IsSafe _ (map-IsSafe string_decode byte_string string-IsSafe))
                (fail-IsSafe bad_internal_error null_node_id))))))

  node_id-IsSafe : IsSafe node_id_decode
  unfolding node_id_decode
  node_id-IsSafe =
      checked-IsSafe _ _ _ _ byte-IsSafe
        λ encoding. on_error-IsSafe _ _ (node_id_body-IsSafe encoding)

  expanded_body-IsSafe : (encoding : ℕ) → IsSafe (expanded_body_decode encoding)
  unfolding expanded_body_decode
  expanded_body-IsSafe encoding = bind-IsSafe _ _ node_id-IsSafe λ n.
      bind-IsSafe _ _ (decode_if-IsSafe _ _ _ string-IsSafe)
        λ uri. map-IsSafe _ _ (decode_if-IsSafe _ _ _ uint32-IsSafe)

  -- On every buffer, whatever its bytes and whether or not memory can be allocated,
  -- `ExpandedNodeId_decodeBinary`, and with it `NodeId_decodeBinary` and `String_decodeBinary`,
  -- moves the position forward and not behind the end, and keeps the length of the buffer.
  pub expanded_node_id-IsSafe : IsSafe expanded_node_id_decode
  unfolding expanded_node_id_decode
  expanded_node_id-IsSafe = record {
    run = λ s h. elim (Bool-cases (leb (length s.bytes) s.offset)) [
      | inl end ↦ rw end ((fail-IsSafe bad_decoding_error null_expanded_node_id).run s h)
      | inr inside ↦
          let cleared = bit_and (get_or s.bytes s.offset 0) 0x3f in
          let s' : Stream = record s { bytes = set s.bytes s.offset cleared } in
          let same = length-set s.bytes s.offset cleared in
          let body =
            on_error-IsSafe expanded_node_id_delete_members _
              (expanded_body-IsSafe (get_or s.bytes s.offset 0)) in
          let r = body.run s' (omega (arith, same)) in
          rw inside (record {
            same_length = omega (arith, same, r.same_length);
            forward = omega (arith, r.forward);
            within = omega (arith, same, r.within);
          })
    ];
  }
