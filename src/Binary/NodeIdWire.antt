-- ===== src/Binary/NodeIdWire.antt =====
-- Node ids write and read the forms of OPC UA part 6, section 5.2.2.9.
use opc_ua.Common.{
  ℕ, ◌%◌, ◌^◌, ◌≡◌, refl, ap, arith, true, false, ◌||◌, ◌&&◌, leb, ◌==◌, ltb, if◌then◌else◌, inl,
  inr, Bool-cases, List, [], ◌∷◌, ◌++◌,
}
use opc_ua.Types.{
  NodeId, Identifier, numeric, string, guid, byte_string, IsU16, IsU32, IsIdentifier, IsNodeId,
}
use opc_ua.Binary.Stream.{Decoder, Allocator, to_le, pure, ◌>>=◌}
use opc_ua.Binary.Wire.{
  Writes, Reads, Writes-then, Reads-bind, Reads-map, Reads-checked, Reads-on_error,
}
use opc_ua.Binary.WordWire.{
  Writes-uint16, Reads-uint16, Writes-uint32, Reads-uint32, Writes-byte, Reads-byte,
}
use opc_ua.Binary.StringWire.{
  string_wire, guid_wire, Writes-string, Reads-string, Writes-guid, Reads-guid,
}
use opc_ua.Binary.Integers.{byte_decode, uint16_decode, uint32_decode}
use opc_ua.Binary.Strings.{string_decode, guid_decode}
use opc_ua.Binary.NodeIds.{
  numeric_encode, identifier_encode, node_id_encode, complete_decode, node_id_body_decode,
  node_id_decode,
}

-- The bytes of the three forms of OPC UA part 6. The source takes 256 for a number that fits a byte,
-- and cuts it off.
abbrev pub numeric_wire : ℕ → ℕ → List ℕ
numeric_wire ns id =
    if ltb 0xffff id || ltb 256 ns
    then 2 ∷ to_le 2 ns ++ to_le 4 id
    else if ltb 256 id || ltb 0 ns
    then 1 ∷ ns % 2 ^ 8 ∷ to_le 2 id
    else (0 ∷ id % 2 ^ 8 ∷ [])

-- What arrives: namespace 256 turns into namespace 0 where the id has at most 16 bits, and the id 256
-- of namespace 0 into the id 0.
abbrev pub arriving : ℕ → Identifier → NodeId
arriving ns (numeric id) =
    if ns == 256 && leb id 0xffff
    then record { namespace_index = 0; identifier = numeric id }
    else if ns == 0 && id == 256
    then record { namespace_index = 0; identifier = numeric 0 }
    else record { namespace_index = ns; identifier = numeric id }
arriving ns i = record { namespace_index = ns; identifier = i }

abbrev pub arrived : NodeId → NodeId
arrived n = arriving n.namespace_index n.identifier

abbrev pub identifier_wire : ℕ → Identifier → List ℕ
identifier_wire ns (numeric id) = numeric_wire ns id
identifier_wire ns (string s) = 3 ∷ to_le 2 ns ++ string_wire s
identifier_wire ns (guid g) = 4 ∷ to_le 2 ns ++ guid_wire g
identifier_wire ns (byte_string s) = 5 ∷ to_le 2 ns ++ string_wire s

abbrev pub node_id_wire : NodeId → List ℕ
node_id_wire n = identifier_wire n.namespace_index n.identifier

Writes-numeric : (ns id : ℕ) → Writes (numeric_encode ns id) (numeric_wire ns id)
unfolding numeric_encode
Writes-numeric ns id = elim (Bool-cases (ltb 0xffff id || ltb 256 ns)) [
  | inl big ↦
      rw big
        (Writes-then _ _ (Writes-then _ _ (Writes-byte 2) (Writes-uint16 ns)) (Writes-uint32 id))
  | inr small ↦
      let id_fits : id % 2 ^ 16 ≡ id = ground arith in
      rw (small, id_fits)
        (elim (Bool-cases (ltb 256 id || ltb 0 ns)) [
          | inl medium ↦ rw medium (
              Writes-then _ _ (Writes-then _ _ (Writes-byte 1) (Writes-byte (ns % 2 ^ 8)))
                (Writes-uint16 id))
          | inr tiny ↦ rw tiny (Writes-then _ _ (Writes-byte 0) (Writes-byte (id % 2 ^ 8)))
        ])
]

Writes-identifier :
    (ns : ℕ) (i : Identifier)
    → IsIdentifier i
    → Writes (identifier_encode ns i) (identifier_wire ns i)
unfolding identifier_encode
Writes-identifier ns (numeric id) h = Writes-numeric ns id
Writes-identifier ns (string s) h =
    Writes-then _ _ (Writes-then _ _ (Writes-byte 3) (Writes-uint16 ns)) (Writes-string s h)
Writes-identifier ns (guid g) h =
    Writes-then _ _ (Writes-then _ _ (Writes-byte 4) (Writes-uint16 ns)) (Writes-guid g)
Writes-identifier ns (byte_string s) h =
    Writes-then _ _ (Writes-then _ _ (Writes-byte 5) (Writes-uint16 ns)) (Writes-string s h)

pub Writes-node_id : (n : NodeId) → IsNodeId n → Writes (node_id_encode n) (node_id_wire n)
unfolding node_id_encode
Writes-node_id n h = Writes-identifier n.namespace_index n.identifier h.identifier

arriving_complete :
    (ns id : ℕ)
    → (ltb 0xffff id || ltb 256 ns) ≡ true
    → arriving ns (numeric id) ≡ record { namespace_index = ns; identifier = numeric id }
arriving_complete ns id big =
    let long : (ns == 256 && leb id 0xffff) ≡ false = ground arith in
    let other : (ns == 0 && id == 256) ≡ false = ground arith in rw (long, other) refl

arriving_four :
    (ns id : ℕ)
    → (ltb 0xffff id || ltb 256 ns) ≡ false
    → (ltb 256 id || ltb 0 ns) ≡ true
    → arriving ns (numeric id) ≡ record { namespace_index = ns % 2 ^ 8; identifier = numeric id }
arriving_four ns id small medium = elim (Bool-cases (ns == 256 && leb id 0xffff)) [
  | inl cut ↦ let gone : ns % 2 ^ 8 ≡ 0 = ground arith in rw (cut, gone) refl
  | inr fits ↦
      let other : (ns == 0 && id == 256) ≡ false = ground arith in
      let same : ns % 2 ^ 8 ≡ ns = ground arith in rw (fits, other, same) refl
]

arriving_two :
    (ns id : ℕ)
    → (ltb 256 id || ltb 0 ns) ≡ false
    → arriving ns (numeric id) ≡ record { namespace_index = 0; identifier = numeric (id % 2 ^ 8) }
arriving_two ns id tiny =
    let first : (ns == 256 && leb id 0xffff) ≡ false = ground arith in
    elim (Bool-cases (ns == 0 && id == 256)) [
      | inl cut ↦ let gone : id % 2 ^ 8 ≡ 0 = ground arith in rw (first, cut, gone) refl
      | inr fits ↦
          let none_left : ns ≡ 0 = ground arith in
          let same : id % 2 ^ 8 ≡ id = ground arith in
          rw (first, fits, same)
            (ap (λ k. record { namespace_index = k; identifier = numeric id }) none_left)
    ]

module _ ⦃memory : Allocator⦄
    (plenty : (offset size : ℕ) → memory.succeeds offset size ≡ true) where
  -- The encoding byte, and what the `switch` does with it.
  encoding_then :
      (encoding : ℕ) {bs : List ℕ} {n : NodeId}
      → Reads (node_id_body_decode encoding) bs n
      → Reads node_id_decode (encoding ∷ bs) n
  unfolding node_id_decode
  encoding_then encoding h =
      Reads-checked byte_decode _ (Reads-byte encoding) (Reads-on_error _ _ h) _ _

  complete :
      (ns : ℕ) {A : Type 0} (d : Decoder A) (f : A → Identifier) {bs : List ℕ} {a : A}
      → IsU16 ns
      → Reads d bs a
      → Reads
          (complete_decode (d >>= λ a. pure (f a)))
          (to_le 2 ns ++ bs)
          (record { namespace_index = ns; identifier = f a })
  unfolding complete_decode
  complete ns d f hn h =
      Reads-bind uint16_decode _ (Reads-uint16 ns hn) (Reads-map _ _ (Reads-map d f h))

  Reads-numeric :
      (ns id : ℕ)
      → IsU16 ns
      → IsU32 id
      → Reads node_id_decode (numeric_wire ns id) (arriving ns (numeric id))
  unfolding node_id_body_decode
  Reads-numeric ns id hn hi = elim (Bool-cases (ltb 0xffff id || ltb 256 ns)) [
    | inl big ↦
        rw (big, arriving_complete ns id big)
          (encoding_then 2 (complete ns uint32_decode numeric hn (Reads-uint32 id hi)))
    | inr small ↦ rw small (elim (Bool-cases (ltb 256 id || ltb 0 ns)) [
      | inl medium ↦
          rw (medium, arriving_four ns id small medium)
            (encoding_then 1 (
              Reads-bind byte_decode _ (Reads-byte (ns % 2 ^ 8))
                (Reads-map uint16_decode _ (Reads-uint16 id (ground arith)))))
      | inr tiny ↦
          rw (tiny, arriving_two ns id tiny)
            (encoding_then 0 (Reads-map byte_decode _ (Reads-byte (id % 2 ^ 8))))
    ])
  ]

  pub Reads-node_id : (n : NodeId) → IsNodeId n → Reads node_id_decode (node_id_wire n) (arrived n)
  unfolding node_id_body_decode
  Reads-node_id n h = go n.namespace_index n.identifier h.namespace_index h.identifier
    where
      go :
          (ns : ℕ) (i : Identifier)
          → IsU16 ns
          → IsIdentifier i
          → Reads node_id_decode (identifier_wire ns i) (arriving ns i)
      go ns (numeric id) hn hi = Reads-numeric ns id hn hi
      go ns (string s) hn hi =
          encoding_then 3 (complete ns string_decode string hn (Reads-string plenty s hi))
      go ns (guid g) hn hi = encoding_then 4 (complete ns guid_decode guid hn (Reads-guid g hi))
      go ns (byte_string s) hn hi =
          encoding_then 5 (complete ns string_decode byte_string hn (Reads-string plenty s hi))
