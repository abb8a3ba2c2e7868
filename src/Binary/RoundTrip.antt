-- ===== src/Binary/RoundTrip.antt =====
-- What src/ua_types_encoding_binary.c encodes it decodes to the same value.
use opc_ua.Common.{
  ℕ, ◌+◌, ◌≤◌, ◌≡◌, refl, ap, arith, List, ◌++◌, length, length-append, split_at, take, drop,
  take-append, drop-append, append_assoc, subst, true,
}
use opc_ua.Status.{good}
use opc_ua.Types.{NodeId, IsNodeId, LocalizedText, IsString, Guid, IsGuid, IsU64}
use opc_ua.Binary.Stream.{Stream, done, Encoder, Decoder, Allocator, to_le}
use opc_ua.Binary.Wire.{Writes, Reads}
use opc_ua.Binary.WordWire.{Writes-uint64, Reads-uint64}
use opc_ua.Binary.StringWire.{
  guid_wire, localized_text_wire, Writes-localized_text, Reads-localized_text, Writes-guid,
  Reads-guid,
}
use opc_ua.Binary.NodeIdWire.{node_id_wire, arrived, Writes-node_id, Reads-node_id}
use opc_ua.Binary.Integers.{uint64_encode, uint64_decode}
use opc_ua.Binary.Strings.{guid_encode, guid_decode, localized_text_encode, localized_text_decode}
use opc_ua.Binary.NodeIds.{node_id_encode, node_id_decode}

-- The encoder succeeds and writes `bs` at the position, the decoder reads `v` back from there, both
-- end behind the same byte, and the bytes before and after keep their values.
abbrev pub RoundTrips {ℓ} : {A : Type ℓ} → Encoder → Decoder A → List ℕ → A → Stream → Type ℓ
RoundTrips e d bs v s =
    (t : Stream) × (e s ≡ done good t)
    × (d (record t { offset = s.offset }) ≡ record { status = good; value = v; stream = t })
    × (t.bytes ≡ take s.offset s.bytes ++ (bs ++ drop (s.offset + length bs) s.bytes))
    × (t.offset ≡ s.offset + length bs)

drop_middle :
    (pre mid post : List ℕ) (n : ℕ)
    → length pre + length mid ≡ n
    → drop n (pre ++ (mid ++ post)) ≡ post
drop_middle pre mid post n h =
    rw (← h, ← append_assoc pre mid post, ← length-append pre mid) (drop-append (pre ++ mid) post)

-- A stream with room for `n` bytes is a buffer of three parts.
Stream-split :
    (s : Stream) (n : ℕ)
    → s.offset + n ≤ length s.bytes
    → (pre : List ℕ) × (mid : List ℕ) × (post : List ℕ) × (record {
      bytes = pre ++ (mid ++ post);
      offset = length pre;
    }
        ≡ s)
      × (length mid ≡ n)
Stream-split s n room =
    let (pre, rest, split, at) = split_at s.offset s.bytes (omega arith) in
    let (mid, post, split', wide) =
      split_at n rest
        (omega (arith, ap (λ (l : List ℕ). length l) split, length-append pre rest)) in
    (pre, mid, post, cc (split, split', at), wide)

module _ {ℓ} {A : Type ℓ} (e : Encoder) (d : Decoder A) {bs : List ℕ} {v : A} where
  round_trip_at :
      Writes e bs
      → Reads d bs v
      → (pre mid post : List ℕ) → length mid ≡ length bs
      → RoundTrips e d bs v (record { bytes = pre ++ (mid ++ post); offset = length pre })
  round_trip_at he hd pre mid post wide = (
    record { bytes = pre ++ (bs ++ post); offset = length pre + length bs },
    he.run pre mid post wide,
    hd.run pre post,
    rw (
      take-append pre (mid ++ post),
      drop_middle pre mid post (length pre + length bs) (omega arith),
    ),
    refl,
  )

  round_trip :
      Writes e bs
      → Reads d bs v
      → (s : Stream) → s.offset + length bs ≤ length s.bytes
      → RoundTrips e d bs v s
  round_trip he hd s room =
      let (pre, mid, post, split, wide) = Stream-split s (length bs) room in
      subst (λ t. RoundTrips e d bs v t) split (round_trip_at he hd pre mid post wide)

-- An UInt64 round-trips in its 8 little-endian bytes.
pub uint64_round_trip :
    (v : ℕ) (s : Stream)
    → IsU64 v
    → s.offset + 8 ≤ length s.bytes
    → RoundTrips (uint64_encode v) uint64_decode (to_le 8 v) v s
uint64_round_trip v s h room =
    round_trip (uint64_encode v) uint64_decode (Writes-uint64 v) (Reads-uint64 v h) s room

-- A Guid round-trips in its 16 bytes.
pub guid_round_trip :
    (g : Guid) (s : Stream)
    → IsGuid g
    → s.offset + length (guid_wire g) ≤ length s.bytes
    → RoundTrips (guid_encode g) guid_decode (guid_wire g) g s
guid_round_trip g s h room =
    round_trip (guid_encode g) guid_decode (Writes-guid g) (Reads-guid g h) s room

module _ ⦃memory : Allocator⦄
    (plenty : (offset size : ℕ) → memory.succeeds offset size ≡ true) where
  -- If memory can be allocated, a localized text round-trips, its null strings included.
  pub localized_text_round_trip :
      (t : LocalizedText) (s : Stream)
      → IsString t.locale
      → IsString t.text
      → s.offset + length (localized_text_wire t) ≤ length s.bytes
      → RoundTrips (localized_text_encode t) localized_text_decode (localized_text_wire t) t s
  localized_text_round_trip t s hl ht room =
      round_trip (localized_text_encode t) localized_text_decode (Writes-localized_text t hl ht)
        (Reads-localized_text plenty t hl ht) s room

  -- If memory can be allocated and the buffer has room, a node id whose members fit their C types is
  -- encoded and decoded to itself, with two exceptions: with namespace 256 and a number of at most 16
  -- bits it arrives in namespace 0, and the number 256 of namespace 0 arrives as 0. The rest of the
  -- buffer keeps its bytes.
  pub node_id_round_trip :
      (n : NodeId) (s : Stream)
      → IsNodeId n
      → s.offset + length (node_id_wire n) ≤ length s.bytes
      → RoundTrips (node_id_encode n) node_id_decode (node_id_wire n) (arrived n) s
  node_id_round_trip n s h room =
      round_trip (node_id_encode n) node_id_decode (Writes-node_id n h) (Reads-node_id plenty n h) s
        room
