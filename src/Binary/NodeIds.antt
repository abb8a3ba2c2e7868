-- ===== src/Binary/NodeIds.antt =====
-- src/ua_types_encoding_binary.c: NodeId and ExpandedNodeId.
use opc_ua.Common.{
  ℕ, ◌%◌, ◌^◌, Bool, true, false, ◌||◌, ltb, leb, ◌==◌, if◌then◌else◌, length, get_or, set, bit_and,
  bit_or,
}
use opc_ua.Status.{good, bad_decoding_error, bad_internal_error}
use opc_ua.Types.{
  null_string, content, NodeId, Identifier, numeric, string, guid, byte_string, null_node_id,
  ExpandedNodeId,
}
use opc_ua.Binary.Stream.{
  done, overrun, Encoder, ◌then_encode◌, Decoder, ◌>>=◌, pure, checked, fail, Allocator, encode_if,
  decode_if, on_error, test_bit,
}
use opc_ua.Binary.Integers.{
  byte_encode, byte_decode, uint16_encode, uint16_decode, uint32_encode, uint32_decode,
}
use opc_ua.Binary.Strings.{string_encode, string_decode, guid_encode, guid_decode}

-- UA_BYTE_MAX, as include/ua_types.h defines it
abbrev pub byte_max : ℕ
byte_max = 256

-- The three forms of a numeric id: complete, four bytes, two bytes.
unfoldable pub numeric_encode : ℕ → ℕ → Encoder
numeric_encode ns id =
    if ltb 0xffff id || ltb byte_max ns
    then byte_encode 2 then_encode uint16_encode ns then_encode uint32_encode id
    else if ltb byte_max id || ltb 0 ns
    then byte_encode 1 then_encode byte_encode (ns % 2 ^ 8) then_encode uint16_encode (id % 2 ^ 16)
    else (byte_encode 0 then_encode byte_encode (id % 2 ^ 8))

unfoldable pub identifier_encode : ℕ → Identifier → Encoder
unfolding numeric_encode
identifier_encode ns (numeric id) = numeric_encode ns id
identifier_encode ns (string s) =
    byte_encode 3 then_encode uint16_encode ns then_encode string_encode s
identifier_encode ns (guid g) = byte_encode 4 then_encode uint16_encode ns then_encode guid_encode g
identifier_encode ns (byte_string s) =
    byte_encode 5 then_encode uint16_encode ns then_encode string_encode s

unfoldable pub node_id_encode : NodeId → Encoder
unfolding identifier_encode
node_id_encode n = identifier_encode n.namespace_index n.identifier

-- `UA_NodeId_deleteMembers`
abbrev pub identifier_delete_members : Identifier → Identifier
identifier_delete_members (numeric n) = numeric n
identifier_delete_members (string s) = string null_string
identifier_delete_members (guid g) = guid g
identifier_delete_members (byte_string s) = byte_string null_string

abbrev pub node_id_delete_members : NodeId → NodeId
node_id_delete_members n = record n { identifier = identifier_delete_members n.identifier }

module _ ⦃memory : Allocator⦄ where
  unfoldable pub two_byte_decode : Decoder NodeId
  two_byte_decode = do
    id ← byte_decode
    pure (record { namespace_index = 0; identifier = numeric id })

  unfoldable pub four_byte_decode : Decoder NodeId
  four_byte_decode = do
    ns ← byte_decode
    id ← uint16_decode
    pure (record { namespace_index = ns; identifier = numeric id })

  -- The namespace index as an UInt16, and an identifier.
  unfoldable pub complete_decode : Decoder Identifier → Decoder NodeId
  complete_decode d = do
    ns ← uint16_decode
    id ← d
    pure (record { namespace_index = ns; identifier = id })

  -- The `switch` over the encoding byte.
  unfoldable pub node_id_body_decode : ℕ → Decoder NodeId
  unfolding two_byte_decode four_byte_decode complete_decode
  node_id_body_decode encoding =
      if encoding == 0
      then two_byte_decode
      else if encoding == 1
      then four_byte_decode
      else if encoding == 2
      then complete_decode (uint32_decode >>= λ id. pure (numeric id))
      else if encoding == 3
      then complete_decode (string_decode >>= λ s. pure (string s))
      else if encoding == 4
      then complete_decode (guid_decode >>= λ g. pure (guid g))
      else if encoding == 5
      then complete_decode (string_decode >>= λ s. pure (byte_string s))
      else fail bad_internal_error null_node_id

  unfoldable pub node_id_decode : Decoder NodeId
  unfolding node_id_body_decode
  node_id_decode =
      checked byte_decode (λ status. status) null_node_id
        (λ encoding. on_error node_id_delete_members (node_id_body_decode encoding))

-- `dst->data[start] |= flag`, with no check
unfoldable pub flag_byte : ℕ → ℕ → Encoder
flag_byte start flag s =
    if ltb start (length s.bytes)
    then done good (record s { bytes = set s.bytes start (bit_or (get_or s.bytes start 0) flag) })
    else overrun

-- `start` is an UInt32.
unfoldable pub expanded_node_id_encode : ExpandedNodeId → Encoder
unfolding flag_byte
expanded_node_id_encode x s =
    let start = s.offset % 2 ^ 32 in
    (node_id_encode x.node_id
        then_encode encode_if (ltb 0 (length (content x.namespace_uri)))
            (string_encode x.namespace_uri then_encode flag_byte start 0x80)
        then_encode encode_if (ltb 0 x.server_index)
            (uint32_encode x.server_index then_encode flag_byte start 0x40))
      s

abbrev pub null_expanded_node_id : ExpandedNodeId
null_expanded_node_id = record {
  node_id = null_node_id;
  namespace_uri = null_string;
  server_index = 0;
}

-- `UA_ExpandedNodeId_deleteMembers`
abbrev pub expanded_node_id_delete_members : ExpandedNodeId → ExpandedNodeId
expanded_node_id_delete_members x = record x {
  node_id = node_id_delete_members x.node_id;
  namespace_uri = null_string;
}

module _ ⦃memory : Allocator⦄ where
  abbrev without_namespace : Bool → NodeId → NodeId
  without_namespace true n = record n { namespace_index = 0 }
  without_namespace false n = n

  -- What follows the encoding byte, which stands in the buffer with its flags cleared.
  unfoldable pub expanded_body_decode : ℕ → Decoder ExpandedNodeId
  expanded_body_decode encoding = do
    n ← node_id_decode
    uri ← decode_if (test_bit encoding 0x80) null_string string_decode
    index ← decode_if (test_bit encoding 0x40) 0 uint32_decode
    pure (record {
      node_id = without_namespace (test_bit encoding 0x80) n;
      namespace_uri = uri;
      server_index = index;
    })

  unfoldable pub expanded_node_id_decode : Decoder ExpandedNodeId
  unfolding expanded_body_decode
  expanded_node_id_decode s =
      if leb (length s.bytes) s.offset
      then fail bad_decoding_error null_expanded_node_id s
      else let encoding = get_or s.bytes s.offset 0 in
        on_error expanded_node_id_delete_members (expanded_body_decode encoding)
          (record s { bytes = set s.bytes s.offset (bit_and encoding 0x3f) })
