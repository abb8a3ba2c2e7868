-- ===== src/Message/Connecting.antt =====
-- `processHEL` and `processOPN` of src/server/ua_server_binary.c, and the functions for all types of
-- messages together.
use opc_ua.Common.{
  ℕ, ◌+◌, ◌%◌, ◌^◌, Bool, true, false, not, ltb, leb, ◌==◌, if◌then◌else◌, Option, none, some, List,
  ◌∷◌, take, length,
}
use opc_ua.Status.{good}
use opc_ua.Types.{numeric_member, UaString, NodeId}
use opc_ua.Binary.Stream.{
  Stream, Outcome, done, overrun, Encoder, ◌then_encode◌, Decoder, Decoded, ◌>>=◌, pure, Allocator,
}
use opc_ua.Binary.Integers.{uint32_encode, uint32_decode}
use opc_ua.Binary.Strings.{string_decode}
use opc_ua.Binary.NodeIds.{node_id_decode}
use opc_ua.Channel.State.{Channel, modify_channel}
use opc_ua.Channel.Manager.{OpenRequest, OpenResponse, channel_of}
use opc_ua.Channel.Services.{open_channel_service}
use opc_ua.Session.Manager.{Shared}
use opc_ua.Message.Processing.{Handlers}
use opc_ua.Message.Requests.{
  Requests, Processed, ignored, refused, called, process_message, process_close,
}

-- `UA_ConnectionConfig`
pub record Conf : Type 0 where
  pub protocol_version : ℕ
  pub send_buffer_size : ℕ
  pub recv_buffer_size : ℕ
  pub max_message_size : ℕ
  pub max_chunk_count : ℕ

-- What is sent: the bytes of the acknowledgement of a HEL message, or bytes that are read behind the
-- end of their buffer; the response to an OPN message with its sequence number, the fault of a request
-- with its status, and the response of a service.
pub data Sent : Type 0 where
  acknowledged : List ℕ → Sent
  overread : Sent
  opened : ℕ → Option OpenResponse → Sent
  fault : ℕ → ℕ → Sent
  answered : ℕ → Sent

-- The server, and the state of the connection that the messages arrive on. The last thing sent is the
-- first of the list.
pub record Server : Type 0 where
  pub shared : Shared
  pub established : Bool
  pub local_conf : Conf
  pub remote_conf : Conf
  pub sent : List Sent

-- `UA_TcpHelloMessage`
pub record HelloMessage : Type 0 where
  pub protocol_version : ℕ
  pub receive_buffer_size : ℕ
  pub send_buffer_size : ℕ
  pub max_message_size : ℕ
  pub max_chunk_count : ℕ
  pub endpoint_url : UaString

unfoldable pub hello_decode : ⦃memory : Allocator⦄ → Decoder HelloMessage
unfolding uint32_decode string_decode
hello_decode = do
  version ← uint32_decode
  receive ← uint32_decode
  send ← uint32_decode
  message ← uint32_decode
  chunk ← uint32_decode
  url ← string_decode
  pure (record {
    protocol_version = version;
    receive_buffer_size = receive;
    send_buffer_size = send;
    max_message_size = message;
    max_chunk_count = chunk;
    endpoint_url = url;
  })

-- What `connection->close` does is up to the network layer: the connection is noted, and it may
-- leave its state.
abbrev pub close_connection_of : ℕ → Server → Server
close_connection_of conn sv = record sv {
  shared = record (sv.shared) {
    world = record (sv.shared.world) { closed = conn ∷ sv.shared.world.closed };
  };
  established = false;
}

abbrev pub at_most : ℕ → ℕ → ℕ
at_most size bound = if ltb bound size then bound else size

abbrev pub negotiate : HelloMessage → Server → Server
negotiate h sv = record sv {
  established = true;
  local_conf = record (sv.local_conf) {
    send_buffer_size = at_most sv.local_conf.send_buffer_size h.receive_buffer_size;
    recv_buffer_size = at_most sv.local_conf.recv_buffer_size h.send_buffer_size;
  };
  remote_conf = record {
    protocol_version = h.protocol_version;
    send_buffer_size = h.send_buffer_size;
    recv_buffer_size = h.receive_buffer_size;
    max_message_size = h.max_message_size;
    max_chunk_count = h.max_chunk_count;
  };
}

-- UA_MESSAGETYPEANDFINAL_ACKF
abbrev pub ack_type : ℕ
ack_type = 1179337537

-- The size that the header of the acknowledgement names.
abbrev pub ack_size : ℕ
ack_size = 28

-- The header and the acknowledgement, the members of the structures one after the other.
unfoldable pub ack_encode : Conf → Encoder
ack_encode c =
    uint32_encode ack_type
    then_encode uint32_encode ack_size
    then_encode uint32_encode c.protocol_version
    then_encode uint32_encode c.recv_buffer_size
    then_encode uint32_encode c.send_buffer_size
    then_encode uint32_encode c.max_message_size
    then_encode uint32_encode c.max_chunk_count

-- What is sent of the buffer: its length is set to the size of the message, whatever its size and the
-- statuses of the encoding.
unfoldable pub sent_of : ℕ → Outcome → Sent
sent_of buffer_size (done status s) =
    if leb ack_size buffer_size then acknowledged (take ack_size s.bytes) else overread
sent_of buffer_size overrun = overread

abbrev pub send_ack : Option (List ℕ) → Server → Server
send_ack none sv = sv
send_ack (some buffer) sv = record sv {
  sent =
      sent_of (length buffer) (ack_encode sv.local_conf (record { bytes = buffer; offset = 0 }))
      ∷ sv.sent;
}

-- `processHEL` behind the decoding; `get_send_buffer` gives a buffer for a length, or none
unfoldable pub hello_decoded : (ℕ → Option (List ℕ)) → ℕ → Decoded HelloMessage → Server → Server
unfolding ack_encode sent_of
hello_decoded get_send_buffer conn h sv =
    let after = negotiate h.value sv in
    if not (h.status == good)
    then close_connection_of conn sv
    else send_ack (get_send_buffer after.remote_conf.recv_buffer_size) after

-- `processHEL`
unfoldable pub process_hello :
    ⦃memory : Allocator⦄ → (ℕ → Option (List ℕ)) → ℕ → Stream → Server → Server
unfolding hello_decode hello_decoded
process_hello get_send_buffer conn s sv = hello_decoded get_send_buffer conn (hello_decode s) sv

-- What an OPN message has: the type of the request, and the request, with the test of its type.
pub record OpenMessage : Type 0 where
  pub request_type : NodeId
  pub issue : Bool
  pub request : OpenRequest

-- The generated decoding of the request of a secure channel is a parameter.
unfoldable pub open_message_decode :
    ⦃memory : Allocator⦄ → Decoder (Bool × OpenRequest) → Decoder OpenMessage
unfolding uint32_decode string_decode node_id_decode
open_message_decode request_decode = do
  channel ← uint32_decode
  policy ← string_decode
  certificate ← string_decode
  thumbprint ← string_decode
  sequence ← uint32_decode
  id ← uint32_decode
  type ← node_id_decode
  r ← request_decode
  pure (record { request_type = type; issue = r.0; request = r.1 })

-- What the network layer, the clock and the allocations give to a call.
pub record Outside : Type 0 where
  pub now : ℕ
  pub channel_memory : Option ℕ
  pub get_send_buffer : ℕ → Option (List ℕ)
  pub buffered : Bool
  pub encoded : Bool

-- The response to an OPN message: without a channel the connection is closed.
unfoldable pub answer_open : Outside → ℕ → Option OpenResponse → Option Channel → Server → Server
answer_open out conn response none sv = close_connection_of conn sv
answer_open out conn response (some c) sv =
    let number = (c.sequence_number + 1) % 2 ^ 32 in
    let counted = record sv {
      shared = record (sv.shared) {
        world =
            modify_channel c.address (λ (d : Channel). record d { sequence_number = number })
              sv.shared.world;
      };
    } in
    if not out.buffered
    then counted
    else if out.encoded
    then record counted { sent = opened number response ∷ counted.sent }
    else close_connection_of conn counted

-- `processOPN`
unfoldable pub process_open :
    ⦃memory : Allocator⦄ → Decoder (Bool × OpenRequest) → Outside → ℕ → Stream → Server → Server
unfolding open_message_decode open_channel_service channel_of answer_open
process_open request_decode out conn s sv =
    let m = open_message_decode request_decode s in
    if not sv.established
    then close_connection_of conn sv
    else if not (m.status == good)
    then close_connection_of conn sv
    else if not (numeric_member m.value.request_type.identifier == 446)
    then close_connection_of conn sv
    else let r =
        open_channel_service out.now out.channel_memory conn m.value.issue m.value.request
          sv.shared.world in
      answer_open out conn r.1 (channel_of conn r.2)
        (record sv { shared = record (sv.shared) { world = r.2 } })

-- The services: `serve` is the call of the service of a type, with a session or an anonymous one, and
-- the sending of its response, with its status; `has_header` says whether the header of a request can
-- be decoded.
pub record Services (R : Type 0) : Type 0 where
  pub requests : Requests R
  pub serve : ℕ → Option ℕ → R → Shared → ℕ × Shared
  pub has_header : Stream → Bool

module _ {R : Type 0} (services : Services R) where
  -- `sendError`
  abbrev pub send_error : ℕ → ℕ → Stream → Server → Server
  send_error request_id status s sv =
      if services.has_header s then record sv { sent = fault request_id status ∷ sv.sent } else sv

  -- The end of `processMSG`.
  unfoldable pub finish_message : Processed R → Server → Server
  finish_message (ignored sh) sv = record sv { shared = sh }
  finish_message (refused request_id status s sh) sv =
      send_error request_id status s (record sv { shared = sh })
  finish_message (called index session r request_id before sh) sv =
      let served = services.serve index session r sh in
      let after = record sv { shared = served.1 } in
      if served.0 == good
      then record after { sent = answered request_id ∷ after.sent }
      else send_error request_id served.0 before after

  unfoldable pub server_handlers :
      ⦃memory : Allocator⦄ → Decoder (Bool × OpenRequest) → Outside → ℕ → Handlers Server
  unfolding process_hello process_open process_message process_close finish_message
  server_handlers request_decode out conn = record {
    process_hello = λ bytes pos sv.
        process_hello out.get_send_buffer conn (record { bytes = bytes; offset = pos }) sv;
    process_open = λ bytes pos sv.
        process_open request_decode out conn (record { bytes = bytes; offset = pos }) sv;
    process_message = λ bytes pos sv.
        finish_message
          (process_message services.requests out.now conn (record { bytes = bytes; offset = pos })
            sv.shared)
          sv;
    process_close = λ bytes pos sv. record sv {
      shared = process_close conn (record { bytes = bytes; offset = pos }) sv.shared;
    };
    is_established = λ sv. sv.established;
    close = λ sv. close_connection_of conn sv;
  }
