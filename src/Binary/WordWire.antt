-- ===== src/Binary/WordWire.antt =====
-- The integers of src/ua_types_encoding_binary.c write and read their little-endian form.
use opc_ua.Common.{
  ℕ, zero, suc, ◌+◌, ◌/◌, ◌≡◌, refl, ap, arith, Bool, true, false, ltb, le→ltb, List, [], ◌∷◌, ◌++◌,
  length, take, drop, get_or, set, drop-append, take-append,
}
use opc_ua.Types.{IsU16, IsU32, IsU64}
use opc_ua.Status.{good}
use opc_ua.Binary.Stream.{done, to_le, from_le}
use opc_ua.Binary.Wire.{Writes, Reads, store-append, length_middle}
use opc_ua.Binary.Integers.{
  word_encode, word_decode, byte_encode, byte_decode, uint16_encode, uint16_decode, uint32_encode,
  uint32_decode, uint64_encode, uint64_decode, bool_byte, boolean_encode, boolean_decode,
}

pub length-to_le : (n v : ℕ) → length (to_le n v) ≡ n
length-to_le zero v = refl
length-to_le (suc n) v = ap suc (length-to_le n (v / 256))

pub load_middle :
    (pre bs post : List ℕ) (n : ℕ)
    → length bs ≡ n
    → take n (drop (length pre) (pre ++ (bs ++ post))) ≡ bs
load_middle pre bs post n h = rw (drop-append pre (bs ++ post), ← h) (take-append bs post)

-- There is room behind `pre` for what stands between it and `post`.
pub room_middle :
    (pre mid post : List ℕ) (n : ℕ)
    → length mid ≡ n
    → ltb (length (pre ++ (mid ++ post))) (length pre + n) ≡ false
room_middle pre mid post n h = le→ltb _ _ (omega (arith, length_middle pre mid post))

Writes-word : (n v : ℕ) → Writes (word_encode n v) (to_le n v)
unfolding word_encode
Writes-word n v = record {
  run = λ pre mid post h. rw (
    room_middle pre mid post n (omega (arith, length-to_le n v)),
    store-append pre mid post (to_le n v) h,
    length-to_le n v,
  );
}

Reads-word : (n v : ℕ) → from_le (to_le n v) ≡ v → Reads (word_decode n) (to_le n v) v
unfolding word_decode
Reads-word n v e = record {
  run = λ pre post. rw (
    room_middle pre (to_le n v) post n (length-to_le n v),
    load_middle pre (to_le n v) post n (length-to_le n v),
    e,
    length-to_le n v,
  );
}

pub Writes-uint16 : (v : ℕ) → Writes (uint16_encode v) (to_le 2 v)
unfolding uint16_encode
Writes-uint16 v = Writes-word 2 v

pub Reads-uint16 : (v : ℕ) → IsU16 v → Reads uint16_decode (to_le 2 v) v
unfolding uint16_decode
Reads-uint16 v h = Reads-word 2 v (omega arith)

pub Writes-uint32 : (v : ℕ) → Writes (uint32_encode v) (to_le 4 v)
unfolding uint32_encode
Writes-uint32 v = Writes-word 4 v

pub Reads-uint32 : (v : ℕ) → IsU32 v → Reads uint32_decode (to_le 4 v) v
unfolding uint32_decode
Reads-uint32 v h = Reads-word 4 v (omega arith)

pub Writes-uint64 : (v : ℕ) → Writes (uint64_encode v) (to_le 8 v)
unfolding uint64_encode
Writes-uint64 v = Writes-word 8 v

pub Reads-uint64 : (v : ℕ) → IsU64 v → Reads uint64_decode (to_le 8 v) v
unfolding uint64_decode
Reads-uint64 v h = Reads-word 8 v (omega arith)

set_middle :
    (pre : List ℕ) (m v : ℕ) (post : List ℕ)
    → set (pre ++ (m ∷ post)) (length pre) v ≡ pre ++ (v ∷ post)
set_middle [] m v post = refl
set_middle (x ∷ pre) m v post = ap (λ t. x ∷ t) (set_middle pre m v post)

get_middle :
    (pre : List ℕ) (m d : ℕ) (post : List ℕ) → get_or (pre ++ (m ∷ post)) (length pre) d ≡ m
get_middle [] m d post = refl
get_middle (x ∷ pre) m d post = get_middle pre m d post

byte_run :
    (v : ℕ) (pre mid post : List ℕ)
    → length mid ≡ 1
    → byte_encode v (record { bytes = pre ++ (mid ++ post); offset = length pre })
      ≡ done good (record { bytes = pre ++ (v ∷ post); offset = length pre + 1 })
unfolding byte_encode
byte_run v pre [] post h = absurd (omega arith)
byte_run v pre (m ∷ n ∷ mid) post h = absurd (omega arith)
byte_run v pre (m ∷ []) post h = rw (room_middle pre (m ∷ []) post 1 h, set_middle pre m v post)

pub Writes-byte : (v : ℕ) → Writes (byte_encode v) (v ∷ [])
Writes-byte v = record { run = byte_run v }

pub Reads-byte : (v : ℕ) → Reads byte_decode (v ∷ []) v
unfolding byte_decode
Reads-byte v = record {
  run = λ pre post. rw (room_middle pre (v ∷ []) post 1 refl, get_middle pre v 0 post);
}

boolean_encode-byte_encode : (b : Bool) → boolean_encode b ≡ byte_encode (bool_byte b)
unfolding boolean_encode byte_encode
boolean_encode-byte_encode b = refl

pub Writes-boolean : (b : Bool) → Writes (boolean_encode b) (bool_byte b ∷ [])
Writes-boolean b = rw (boolean_encode-byte_encode b) (Writes-byte (bool_byte b))

boolean_read : (b : Bool) → ltb 0 (bool_byte b) ≡ b
boolean_read true = refl
boolean_read false = refl

pub Reads-boolean : (b : Bool) → Reads boolean_decode (bool_byte b ∷ []) b
unfolding boolean_decode
Reads-boolean b = record {
  run = λ pre post. rw (
    room_middle pre (bool_byte b ∷ []) post 1 refl,
    get_middle pre (bool_byte b) 0 post,
    boolean_read b,
  );
}
