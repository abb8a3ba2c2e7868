-- ===== src/Message/Tests.antt =====
-- A connection with a secure channel and a session, and the theorems at messages on it.
use opc_ua.Common.{
  ℕ, ◌≡◌, ◌≢◌, ◌⊎◌, refl, ap, sym, ◌∙◌, arith, inl, Bool, true, false, ◌==◌, if◌then◌else◌, Option,
  none, some, List, [], ◌∷◌, ◌++◌, take, drop, length, length-replicate, replicate,
}
use opc_ua.Status.{good, bad_session_not_activated, bad_secure_channel_id_invalid}
use opc_ua.Types.{numeric, bytes_equal, string_equal, guid_equal, identifier_equal, node_id_equal}
use opc_ua.Binary.Stream.{Stream, ◌>>=◌, checked, on_error, Decoder, Allocator}
use opc_ua.Binary.Integers.{word_decode, byte_decode, uint16_decode, uint32_decode}
use opc_ua.Binary.Strings.{string_decode}
use opc_ua.Binary.NodeIds.{node_id_decode}
use opc_ua.Channel.State.{Token, Channel, init_channel, modify, at_address, with_id}
use opc_ua.Channel.Links.{revolve_tokens}
use opc_ua.Channel.Manager.{OpenRequest, init_manager, channel_of, close_channel, drop_channel}
use opc_ua.Channel.Services.{close_channel_service}
use opc_ua.Session.Manager.{
  Session, Shared, init_session, init_session_manager, modify_session, session_at,
  get_channel_session,
}
use opc_ua.Connection.Assembly.{
  known_type, bad_length, Memory, scan, scan_all, finish_received, finish_joined, complete_messages,
}
use opc_ua.Connection.Scanning.{IsMessage}
use opc_ua.Message.Processing.{
  header_decode, Handlers, process_kind, process_one, repeat_loop, process_from,
  process_binary_message,
}
use opc_ua.Message.Requests.{
  get_service_pointers, service_of, message_header_decode, Requests, Processed, ignored, refused,
  called, revolve_of, check_session, update_lifetime_of, call_service, process_decoded,
  process_service, process_checked, process_message, close_named, process_close,
}
use opc_ua.Message.Delivery.{process_each, process_delivered}
use opc_ua.Message.Connecting.{
  Conf, Server, hello_decode, ack_encode, sent_of, hello_decoded, close_connection_of,
  process_hello, Outside, open_message_decode, answer_open, process_open, Services, finish_message,
  server_handlers,
}
use opc_ua.Message.Handshake.{Negotiated, process_hello-Negotiated}
use opc_ua.Message.Waiting.{Untouched, complete_messages-Untouched}

program : Unit {0}
unfolding bytes_equal string_equal guid_equal identifier_equal node_id_equal ◌>>=◌ checked on_error
    word_decode byte_decode uint16_decode uint32_decode node_id_decode init_channel modify
    at_address with_id revolve_tokens init_manager channel_of close_channel drop_channel
    close_channel_service init_session init_session_manager modify_session session_at
    get_channel_session known_type bad_length scan scan_all finish_received finish_joined
    complete_messages header_decode process_kind process_one repeat_loop process_from
    process_binary_message get_service_pointers service_of message_header_decode revolve_of
    check_session update_lifetime_of call_service process_decoded process_service process_checked
    process_message close_named process_close process_each process_delivered string_decode
    hello_decode ack_encode sent_of hello_decoded process_hello open_message_decode answer_open
    process_open finish_message server_handlers
program = tt

-- What was done, the last thing first: a type and the position behind the header.
abbrev record_calls : Handlers (List (ℕ × ℕ))
record_calls = record {
  process_hello = λ bytes pos s. (1, pos) ∷ s;
  process_open = λ bytes pos s. (2, pos) ∷ s;
  process_message = λ bytes pos s. (3, pos) ∷ s;
  process_close = λ bytes pos s. (4, pos) ∷ s;
  is_established = λ s. true;
  close = λ s. (0, 0) ∷ s;
}

abbrev hel : List ℕ
hel = 0x48 ∷ 0x45 ∷ 0x4C ∷ 0x46 ∷ 17 ∷ 0 ∷ 0 ∷ 0 ∷ 1 ∷ 2 ∷ 3 ∷ 4 ∷ 5 ∷ 6 ∷ 7 ∷ 8 ∷ 9 ∷ []

abbrev clo : List ℕ
clo = 0x43 ∷ 0x4C ∷ 0x4F ∷ 0x46 ∷ 16 ∷ 0 ∷ 0 ∷ 0 ∷ 1 ∷ 2 ∷ 3 ∷ 4 ∷ 5 ∷ 6 ∷ 7 ∷ 8 ∷ []

-- Behind a message that closes the channel nothing is processed.
closed_first :
    process_binary_message record_calls (hel ++ clo ++ hel) []
    ≡ some ((0, 0) ∷ (4, 25) ∷ (1, 8) ∷ [])
unfolding program
closed_first = refl

-- A message that says that it has no bytes is processed again and again.
no_bytes : process_from record_calls 100 (0x20 ∷ 0 ∷ 0 ∷ 0 ∷ 0 ∷ 0 ∷ 0 ∷ 0 ∷ []) 0 [] ≡ none
unfolding program
no_bytes = refl

abbrev token : ℕ → Token
token n = record { channel_id = 7; token_id = n; created_at = 0; revised_lifetime = 1000 }

abbrev channel : Channel
unfolding program
channel = record (init_channel 100) {
  security_token = token 3;
  next_security_token = token 4;
  connection = some 5;
  sessions = 1 ∷ [];
}

abbrev session : Bool → Session
unfolding program
session activated = record (init_session 1) {
  activated = activated;
  authentication_token = record { namespace_index = 0; identifier = numeric 9 };
}

abbrev shared : Bool → Shared
unfolding program
shared activated = record {
  world = record {
    manager = record (init_manager 2 1000 7 4) {
      channels = channel ∷ [];
      current_channel_count = 1;
    };
    connection_channel = λ c. if c == 5 then some 100 else none;
    session_channel = λ s. some 100;
    closed = [];
  };
  session_manager = record (init_session_manager 2 1000 1) { sessions = session activated ∷ [] };
}

-- A request is the number of its token.
abbrev numbers : Requests ℕ
numbers = record {
  decode = λ index s. record { status = good; value = 9; stream = s };
  authentication_token = λ r. record { namespace_index = 0; identifier = numeric r };
}

instance abbrev unlimited : Allocator
unlimited = record { succeeds = λ offset size. true }

-- A ReadRequest (631) on the channel, with a token.
abbrev read_with : ℕ → Stream
read_with t = record {
  bytes = 7 ∷ 0 ∷ 0 ∷ 0 ∷ t ∷ 0 ∷ 0 ∷ 0 ∷ 1 ∷ 0 ∷ 0 ∷ 0 ∷ 2 ∷ 0 ∷ 0 ∷ 0 ∷ 1 ∷ 0 ∷ 0x77 ∷ 2 ∷ [];
  offset = 0;
}

abbrev outcome : Processed ℕ → ℕ × ℕ
outcome (ignored sh) = (0, 0)
outcome (refused id status s sh) = (1, status)
outcome (called index s r id stream sh) = (2, index)

read_called : outcome (process_message numbers 10 5 (read_with 3) (shared true)) ≡ (2, 118)
unfolding program
read_called = refl

next_token_called : outcome (process_message numbers 10 5 (read_with 4) (shared true)) ≡ (2, 118)
unfolding program
next_token_called = refl

passive_refused :
    outcome (process_message numbers 10 5 (read_with 3) (shared false))
    ≡ (1, bad_session_not_activated)
unfolding program
passive_refused = refl

wrong_token : outcome (process_message numbers 10 5 (read_with 8) (shared true)) ≡ (0, 0)
unfolding program
wrong_token = refl

no_channel :
    outcome (
      process_message numbers 10 6
        (record (read_with 0) { bytes = 0 ∷ drop 1 (read_with 0).bytes })
        (shared true))
    ≡ (1, bad_secure_channel_id_invalid)
unfolding program
no_channel = refl

abbrev ample : Memory
ample = record { grown = true; copied = true; rest_stored = true }

clo-IsMessage : IsMessage 65536 clo
unfolding program
clo-IsMessage = record { known = refl; stated = refl; least = omega arith; most = omega arith }

abbrev conf : ℕ → Conf
conf size = record {
  protocol_version = 0;
  send_buffer_size = size;
  recv_buffer_size = size;
  max_message_size = 0;
  max_chunk_count = 0;
}

abbrev server : Server
server = record {
  shared = shared true;
  established = false;
  local_conf = conf 65536;
  remote_conf = conf 0;
  sent = [];
}

-- A HEL message with buffers of 4096 and 8192 bytes and no url, behind its header.
abbrev greeting : Stream
greeting = record {
  bytes =
      0 ∷ 0 ∷ 0 ∷ 0 ∷ 0 ∷ 16 ∷ 0 ∷ 0 ∷ 0 ∷ 32 ∷ 0 ∷ 0 ∷ 0 ∷ 0 ∷ 0 ∷ 0 ∷ 0 ∷ 0 ∷ 0 ∷ 0 ∷ 255 ∷ 255
      ∷ 255 ∷ 255 ∷ [];
  offset = 0;
}

abbrev buffers : ℕ → Option (List ℕ)
buffers size = some (replicate size 0)

buffers-exact : (size : ℕ) (buffer : List ℕ) → buffers size ≡ some buffer → length buffer ≡ size
buffers-exact size buffer e =
    let same : replicate size 0 ≡ buffer = cc in
    ap (λ (l : List ℕ). length l) (sym same) ∙ length-replicate size 0

agreed :
    (process_hello buffers 6 greeting server).local_conf
    ≡ record (conf 65536) { send_buffer_size = 4096; recv_buffer_size = 8192 }
unfolding program
agreed = refl

process_hello-Negotiated_example :
    (((hello_decode greeting).status ≡ good)
      × Negotiated buffers
          (hello_decode greeting).value
          server
          (process_hello buffers 6 greeting server))
    ⊎ (((hello_decode greeting).status ≢ good)
        × (process_hello buffers 6 greeting server ≡ close_connection_of 6 server))
process_hello-Negotiated_example = process_hello-Negotiated buffers buffers-exact 6 greeting server

abbrev services : Services ℕ
services = record {
  requests = numbers;
  serve = λ index session r sh. (good, sh);
  has_header = λ s. true;
}

abbrev no_request : Decoder (Bool × OpenRequest)
no_request s = record {
  status = good;
  value = (true, record { security_mode_none = true; requested_lifetime = 600; client_nonce = [] });
  stream = s;
}

abbrev out : Outside
out = record {
  now = 10;
  channel_memory = some 200;
  get_send_buffer = buffers;
  buffered = true;
  encoded = true;
}

complete_messages-Untouched_example :
    (after : Server) × (process_delivered
        (server_handlers services no_request out 6)
        (complete_messages ample 65536 (take 9 clo) (drop 9 clo ++ take 5 hel)).message
        server
      ≡ some after)
    × Untouched server after
unfolding channel_of shared
complete_messages-Untouched_example =
    complete_messages-Untouched services no_request out 6 ample 65536 (take 9 clo)
      (drop 9 clo ++ take 5 hel) (clo ∷ []) (take 5 hel) server
      (record { grown = refl; copied = refl; rest_stored = refl }) (omega arith) (clo-IsMessage, tt)
      (inl (omega arith)) refl (omega arith) (omega arith) (refl, tt) refl refl
