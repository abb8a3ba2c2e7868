-- ===== src/Connection/Assembly.antt =====
-- `UA_Connection_completeMessages` of src/ua_connection.c.
use opc_ua.Common.{
  ℕ, zero, suc, ◌+◌, ◌-◌, ◌%◌, ◌^◌, Bool, true, false, ◌&&◌, ◌||◌, not, ltb, leb, ◌==◌,
  if◌then◌else◌, Option, none, some, List, [], ◌∷◌, ◌++◌, length, take, drop, get_or,
}
use opc_ua.Status.{good, bad_out_of_memory}
use opc_ua.Binary.Integers.{uint32_decode}

-- What the call leaves: `connection->incompleteMessage`, the message, which is `none` when its
-- buffer was given back, and `*realloced`.
pub record Assembly : Type 0 where
  pub status : ℕ
  pub incomplete : List ℕ
  pub message : Option (List ℕ)
  pub realloced : Bool

-- Whether each of the calls that allocate returns memory.
pub record Memory : Type 0 where
  pub grown : Bool
  pub copied : Bool
  pub rest_stored : Bool

abbrev pub is_type : ℕ → ℕ → ℕ → ℕ → ℕ → ℕ → Bool
is_type a b c x y z = (a == x) && (b == y) && (c == z)

-- "MSG", "OPN", "HEL", "ACK" or "CLO"
unfoldable pub known_type : ℕ → ℕ → ℕ → Bool
known_type a b c =
    is_type a b c 0x4D 0x53 0x47
    || is_type a b c 0x4F 0x50 0x4E
    || is_type a b c 0x48 0x45 0x4C
    || is_type a b c 0x41 0x43 0x4B
    || is_type a b c 0x43 0x4C 0x4F

-- `length < 16 || length > maxMessageSize`, where both are int32_t
unfoldable pub bad_length : ℕ → ℕ → Bool
bad_length max n = ltb n 16 || leb (2 ^ 31) n || leb (2 ^ 31) max || ltb max n

-- `pos` and `delete_at` after the loop.
pub record Scan : Type 0 where
  pub pos : ℕ
  pub delete_at : ℕ

-- The loop; each round takes at least 16 bytes of the fuel.
unfoldable pub scan : ℕ → ℕ → List ℕ → ℕ → ℕ → Scan
unfolding known_type bad_length
scan zero max bytes pos delete_at = record { pos = pos; delete_at = delete_at }
scan (suc fuel) max bytes pos delete_at =
    let r = uint32_decode (record { bytes = bytes; offset = pos + 4 }) in
    let rest = scan fuel max bytes (pos + r.value) delete_at in
    if not (leb 16 (length bytes - pos))
    then record { pos = pos; delete_at = delete_at }
    else if not
        (known_type (get_or bytes pos 0) (get_or bytes (pos + 1) 0) (get_or bytes (pos + 2) 0))
    then record { pos = pos; delete_at = pos }
    else if not (r.status == good) || bad_length max r.value
    then record { pos = pos; delete_at = pos }
    else if ltb (length bytes) (r.value + pos)
    then record { pos = pos; delete_at = delete_at }
    else rest

-- The loop over the whole of `current`; `length - 1` wraps on size_t.
unfoldable pub scan_all : ℕ → List ℕ → Scan
unfolding scan
scan_all max bytes = scan (suc (length bytes)) max bytes 0 ((length bytes + (2 ^ 64 - 1)) % 2 ^ 64)

-- What follows the loop, where `current` is the message itself.
unfoldable pub finish_received : Memory → List ℕ → Scan → Assembly
finish_received memory bytes s =
    if s.delete_at == 0
    then record { status = good; incomplete = []; message = none; realloced = true }
    else if s.pos == 0
    then record {
      status = good;
      incomplete = if memory.copied then bytes else [];
      message = none;
      realloced = true;
    }
    else if not (length bytes == s.pos)
    then (if memory.rest_stored
        then record {
          status = good;
          incomplete = drop s.pos bytes;
          message = some (take s.pos bytes);
          realloced = false;
        }
        else record {
          status = bad_out_of_memory;
          incomplete = [];
          message = none;
          realloced = true;
        })
    else record { status = good; incomplete = []; message = some bytes; realloced = false }

-- What follows the loop, where `current` is the incomplete message with the new one behind it.
unfoldable pub finish_joined : Memory → List ℕ → Scan → Assembly
finish_joined memory bytes s =
    if s.delete_at == 0
    then record { status = good; incomplete = []; message = none; realloced = true }
    else if s.pos == 0
    then record { status = good; incomplete = bytes; message = none; realloced = true }
    else if not (length bytes == s.pos)
    then (if memory.rest_stored
        then record {
          status = good;
          incomplete = drop s.pos bytes;
          message = some (take s.pos bytes);
          realloced = true;
        }
        else record {
          status = bad_out_of_memory;
          incomplete = [];
          message = none;
          realloced = true;
        })
    else record { status = good; incomplete = []; message = some bytes; realloced = true }

-- `UA_Connection_completeMessages`, with `maxMessageSize` and `incompleteMessage` of the connection
unfoldable pub complete_messages : Memory → ℕ → List ℕ → List ℕ → Assembly
unfolding scan_all finish_received finish_joined
complete_messages memory max [] message = finish_received memory message (scan_all max message)
complete_messages memory max (b ∷ bs) message =
    let bytes = b ∷ bs ++ message in
    if memory.grown
    then finish_joined memory bytes (scan_all max bytes)
    else record { status = bad_out_of_memory; incomplete = []; message = none; realloced = false }
