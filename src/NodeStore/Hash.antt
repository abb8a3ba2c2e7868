-- ===== src/NodeStore/Hash.antt =====
-- src/server/ua_nodestore_hash.inc: the hash of a node id, 32 bits wide, on a little-endian
-- machine.
use opc_ua.Common.{ℕ, ◌+◌, ◌-◌, ◌*◌, ◌/◌, ◌%◌, ◌^◌, List, [], ◌∷◌, ◌++◌, length, bit_or, bit_xor}
use opc_ua.Types.{
  UaString, null_string, empty_string, chars, Guid, NodeId, Identifier, numeric, string, guid,
  byte_string,
}
use opc_ua.Binary.Stream.{to_le, from_le}

-- `a * b` on uint32_t
unfoldable pub mul32 : ℕ → ℕ → ℕ
mul32 a b = (a * b) % 2 ^ 32

-- `(k << r) | (k >> (32 - r))`
unfoldable pub rotate : ℕ → ℕ → ℕ
rotate k r = bit_or ((k * 2 ^ r) % 2 ^ 32) (k / 2 ^ (32 - r))

unfoldable pub mix_block : ℕ → ℕ
unfolding mul32 rotate
mix_block k = mul32 (rotate (mul32 k 0xcc9e2d51) 15) 0x1b873593

-- The last one to three bytes, into `k1`.
unfoldable pub mix_tail : List ℕ → ℕ → ℕ
unfolding mix_block
mix_tail [] hash = hash
mix_tail (a ∷ []) hash = bit_xor hash (mix_block a)
mix_tail (a ∷ b ∷ []) hash = bit_xor hash (mix_block (bit_xor (b * 2 ^ 8) a))
mix_tail (a ∷ b ∷ c ∷ rest) hash =
    bit_xor hash (mix_block (bit_xor (bit_xor (c * 2 ^ 16) (b * 2 ^ 8)) a))

-- The loop over the blocks of four bytes, and then the tail.
unfoldable pub mix_blocks : List ℕ → ℕ → ℕ
unfolding mix_block mix_tail
mix_blocks (a ∷ b ∷ c ∷ d ∷ rest) hash = mix_blocks rest (
    (mul32 (rotate (bit_xor hash (mix_block (from_le (a ∷ b ∷ c ∷ d ∷ [])))) 13) 5 + 0xe6546b64)
    % 2 ^ 32)
mix_blocks tail hash = mix_tail tail hash

unfoldable pub finish : ℕ → ℕ
unfolding mul32
finish hash =
    let h1 = mul32 (bit_xor hash (hash / 2 ^ 16)) 0x85ebca6b in
    let h2 = mul32 (bit_xor h1 (h1 / 2 ^ 13)) 0xc2b2ae35 in bit_xor h2 (h2 / 2 ^ 16)

unfoldable pub hash_array : List ℕ → ℕ → ℕ
unfolding mix_blocks finish
hash_array bs seed = finish (bit_xor (mix_blocks bs seed) (length bs % 2 ^ 32))

-- The bytes of a string; NULL has the hash 0.
unfoldable pub hash_string : UaString → ℕ → ℕ
unfolding hash_array
hash_string null_string seed = 0
hash_string empty_string seed = hash_array [] seed
hash_string (chars bs) seed = hash_array bs seed

abbrev pub guid_memory : Guid → List ℕ
guid_memory g = to_le 4 g.data1 ++ to_le 2 g.data2 ++ to_le 2 g.data3 ++ g.data4

-- Knuth's multiplicative hashing for the numeric ids.
unfoldable pub identifier_hash : ℕ → Identifier → ℕ
unfolding hash_string
identifier_hash ns (numeric n) = ((n + ns) % 2 ^ 32 * 2654435761) % 2 ^ 32
identifier_hash ns (string s) = hash_string s ns
identifier_hash ns (guid g) = hash_array (guid_memory g) ns
identifier_hash ns (byte_string s) = hash_string s ns

unfoldable pub hash : NodeId → ℕ
unfolding identifier_hash
hash n = identifier_hash n.namespace_index n.identifier

-- `mod` and `mod2`
abbrev pub first_index : ℕ → ℕ → ℕ
first_index h size = h % size

abbrev pub step : ℕ → ℕ → ℕ
step h size = 1 + h % (size - 2)
