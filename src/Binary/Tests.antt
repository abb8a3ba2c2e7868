-- ===== src/Binary/Tests.antt =====
-- Runs of the encoding and the decoding functions, and the theorems at them.
use opc_ua.Common.{ℕ, ◌+◌, ◌≤◌, ◌<◌, ◌≡◌, ◌↔◌, refl, arith, true, [], ◌∷◌, replicate}
use opc_ua.Status.{good, bad_encoding_error, bad_internal_error}
use opc_ua.Types.{null_string, chars, Guid, NodeId, numeric, string, LocalizedText}
use opc_ua.Binary.Stream.{Stream, done, overrun, ◌then_encode◌, ◌>>=◌, checked, on_error, Allocator}
use opc_ua.Binary.Integers.{
  word_encode, word_decode, byte_encode, byte_decode, boolean_encode, boolean_decode, uint16_encode,
  uint16_decode, uint32_encode, uint32_decode, uint64_encode, uint64_decode,
}
use opc_ua.Binary.Strings.{
  memory_copy, string_body_encode, string_encode, chars_decode, string_body_decode, string_decode,
  bytes_encode, bytes_decode, guid_encode, guid_decode, localized_text_encode,
  localized_text_decode,
}
use opc_ua.Binary.NodeIds.{
  numeric_encode, identifier_encode, node_id_encode, two_byte_decode, four_byte_decode,
  complete_decode, node_id_body_decode, node_id_decode, flag_byte, expanded_node_id_encode,
  expanded_body_decode, expanded_node_id_decode,
}
use opc_ua.Binary.NodeIdWire.{node_id_wire, arrived}
use opc_ua.Binary.RoundTrip.{RoundTrips, node_id_round_trip}
use opc_ua.Binary.Safety.{IsSafe, expanded_node_id-IsSafe}
use opc_ua.Binary.Overrun.{string_encode-overrun}

program : Unit {0}
unfolding ◌then_encode◌ ◌>>=◌ checked on_error word_encode word_decode byte_encode byte_decode
    boolean_encode boolean_decode uint16_encode uint16_decode uint32_encode uint32_decode
    uint64_encode uint64_decode memory_copy string_body_encode string_encode chars_decode
    string_body_decode string_decode bytes_encode bytes_decode guid_encode guid_decode
    localized_text_encode localized_text_decode numeric_encode identifier_encode node_id_encode
    two_byte_decode four_byte_decode complete_decode node_id_body_decode node_id_decode flag_byte
    expanded_node_id_encode expanded_body_decode expanded_node_id_decode
program = tt

instance abbrev unlimited : Allocator
unlimited = record { succeeds = λ _ _. true }

abbrev blank : ℕ → ℕ → Stream
blank n offset = record { bytes = replicate n 0; offset = offset }

abbrev named : NodeId
named = record { namespace_index = 2; identifier = string (chars (0x61 ∷ 0x62 ∷ [])) }

-- An ns=1 node id with a server index: the flag 0x40 is set in the encoding byte.
expanded_written :
    expanded_node_id_encode
      (record {
        node_id = record { namespace_index = 1; identifier = numeric 5 };
        namespace_uri = null_string;
        server_index = 9;
      })
      (blank 8 0)
    ≡ done good (record { bytes = 0x41 ∷ 1 ∷ 5 ∷ 0 ∷ 9 ∷ 0 ∷ 0 ∷ 0 ∷ []; offset = 8 })
unfolding program
expanded_written = refl

-- An encoding byte that is not known.
unknown_encoding :
    (node_id_decode (record { bytes = 9 ∷ 0 ∷ []; offset = 0 })).status ≡ bad_internal_error
unfolding program
unknown_encoding = refl

-- No room for the id behind the encoding byte.
no_room :
    node_id_encode named (blank 4 0)
    ≡ done bad_encoding_error (record { bytes = 3 ∷ 2 ∷ 0 ∷ 0 ∷ []; offset = 3 })
unfolding program
no_room = refl

abbrev sample_guid : Guid
sample_guid = record {
  data1 = 0xdead_beef;
  data2 = 0x1234;
  data3 = 0x5678;
  data4 = 1 ∷ 2 ∷ 3 ∷ 4 ∷ 5 ∷ 6 ∷ 7 ∷ 8 ∷ [];
}

abbrev label : LocalizedText
label = record { locale = null_string; text = chars (0x68 ∷ 0x69 ∷ []) }

node_id_round_trip_example :
    RoundTrips
      (node_id_encode named)
      node_id_decode
      (node_id_wire named)
      (arrived named)
      (blank 16 2)
node_id_round_trip_example =
    node_id_round_trip (λ _ _. refl) named (blank 16 2) (omega arith) (omega arith)

expanded_node_id-IsSafe_example : IsSafe expanded_node_id_decode
expanded_node_id-IsSafe_example = expanded_node_id-IsSafe ⦃memory = unlimited⦄

string_encode-overrun_example :
    (string_encode (chars (0x61 ∷ 0x62 ∷ [])) (blank 5 0) ≡ overrun)
    ↔ ((0 + 2 ≤ 5) × (0 + 4 ≤ 5) × (5 < 0 + 4 + 2))
string_encode-overrun_example = string_encode-overrun (0x61 ∷ 0x62 ∷ []) (blank 5 0)
