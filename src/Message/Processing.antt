-- ===== src/Message/Processing.antt =====
-- `UA_Server_processBinaryMessage` of src/server/ua_server_binary.c, over the functions that process
-- the messages of each type.
use opc_ua.Common.{
  ℕ, zero, suc, ◌+◌, ◌-◌, Bool, ltb, ◌==◌, if◌then◌else◌, Option, none, some, List, bit_and, length,
}
use opc_ua.Status.{good}
use opc_ua.Binary.Stream.{Decoder, ◌>>=◌, pure}
use opc_ua.Binary.Integers.{uint32_decode}

-- `UA_TcpMessageHeader`
pub record Header : Type 0 where
  pub type_and_final : ℕ
  pub message_size : ℕ

unfoldable pub header_decode : Decoder Header
unfolding uint32_decode
header_decode = do
  t ← uint32_decode
  n ← uint32_decode
  pure (record { type_and_final = t; message_size = n })

-- The cases of the switch over the message type.
pub data Kind : Type 0 where
  hello : Kind
  open_channel : Kind
  request : Kind
  close_channel : Kind
  unknown : Kind

abbrev pub kind_of : ℕ → Kind
kind_of t =
    let type = bit_and t 0xffffff in
    if type == bit_and 1179403592 0xffffff
    then hello
    else if type == bit_and 1179537487 0xffffff
    then open_channel
    else if type == bit_and 1179079501 0xffffff
    then request
    else if type == bit_and 1179601987 0xffffff
    then close_channel
    else unknown

-- What processes a message at a position of the buffer, and `connection->close`. The position where
-- the processing stops is not used: the next message starts where the header says.
pub record Handlers {ℓ} (S : Type ℓ) : Type ℓ where
  pub process_hello : List ℕ → ℕ → S → S
  pub process_open : List ℕ → ℕ → S → S
  pub process_message : List ℕ → ℕ → S → S
  pub process_close : List ℕ → ℕ → S → S
  pub is_established : S → Bool
  pub close : S → S

-- After a message: the loop goes on, or it has ended.
pub data Round {ℓ} (S : Type ℓ) : Type ℓ where
  goes_on : S → Round S
  ends : S → Round S

module _ {ℓ} {S : Type ℓ} where
  -- The test at the end of the loop.
  unfoldable pub repeat_loop : (S → Option S) → Bool → Round S → Option S
  repeat_loop go more (ends s) = some s
  repeat_loop go more (goes_on s) = if more then go s else some s

module _ {ℓ} {S : Type ℓ} (handlers : Handlers S) where
  unfoldable pub process_kind : Kind → List ℕ → ℕ → S → Round S
  process_kind hello bytes pos s = goes_on (handlers.process_hello bytes pos s)
  process_kind open_channel bytes pos s = goes_on (handlers.process_open bytes pos s)
  process_kind request bytes pos s =
      if handlers.is_established s
      then goes_on (handlers.process_message bytes pos s)
      else ends (handlers.close s)
  process_kind close_channel bytes pos s =
      ends (handlers.close (handlers.process_close bytes pos s))
  process_kind unknown bytes pos s = goes_on s

  -- One round, with the header that was decoded and the position behind it.
  unfoldable pub process_one : ℕ → Header → List ℕ → ℕ → S → Round S
  unfolding process_kind
  process_one status header bytes pos s =
      if status == good
      then process_kind (kind_of header.type_and_final) bytes pos s
      else ends (handlers.close s)

  unfoldable pub process_from : ℕ → List ℕ → ℕ → S → Option S
  unfolding header_decode process_one repeat_loop
  process_from zero bytes pos s = none
  process_from (suc fuel) bytes pos s =
      let h = header_decode (record { bytes = bytes; offset = pos }) in
      let target = h.stream.offset - 8 + h.value.message_size in
      repeat_loop (λ (t : S). process_from fuel bytes target t) (ltb target (length bytes))
        (process_one h.status h.value bytes h.stream.offset s)

  -- `UA_Server_processBinaryMessage`, with fuel for messages of one byte; `none` if that is not enough
  unfoldable pub process_binary_message : List ℕ → S → Option S
  unfolding process_from
  process_binary_message bytes s = process_from (suc (length bytes)) bytes 0 s
