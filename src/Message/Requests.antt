-- ===== src/Message/Requests.antt =====
-- `processMSG` and `processCLO` of src/server/ua_server_binary.c, with ENABLE_NODEMANAGEMENT and
-- without ENABLE_SUBSCRIPTIONS, ENABLE_METHODCALLS and EXTENSION_STATELESS. The request types and
-- their decoding are generated, and come with the services.
use opc_ua.Common.{
  ℕ, ◌+◌, ◌-◌, ◌%◌, ◌^◌, Bool, true, false, not, ◌&&◌, ltb, ◌==◌, if◌then◌else◌, Option, none, some,
  List, [],
}
use opc_ua.Status.{
  good, bad_service_unsupported, bad_secure_channel_id_invalid, bad_session_id_invalid,
  bad_session_not_activated,
}
use opc_ua.Types.{NodeId, Identifier, numeric, string, guid, byte_string}
use opc_ua.Binary.Stream.{Stream, Decoder, Decoded, Allocator}
use opc_ua.Binary.Integers.{uint32_decode}
use opc_ua.Binary.NodeIds.{node_id_decode}
use opc_ua.Channel.State.{Token, Channel, zero_token, modify_channel}
use opc_ua.Channel.Links.{revolve_tokens}
use opc_ua.Channel.Manager.{channel_of}
use opc_ua.Channel.Services.{close_channel_service}
use opc_ua.Session.Manager.{
  Session, Shared, update_lifetime, modify_session, session_at, get_channel_session,
}

-- `UA_TYPES_OPENSECURECHANNELREQUEST` and `UA_TYPES_ACTIVATESESSIONREQUEST`
abbrev pub open_secure_channel_request : ℕ
open_secure_channel_request = 44

abbrev pub activate_session_request : ℕ
activate_session_request = 55

-- `getServicePointers`: the index of the type of the request with this binary encoding
unfoldable pub get_service_pointers : ℕ → Option ℕ
get_service_pointers id =
    let type = (id + (2 ^ 32 - 2)) % 2 ^ 32 in
    if type == 426
    then some 40
    else if type == 420
    then some 34
    else if type == 459
    then some 50
    else if type == 465
    then some activate_session_request
    else if type == 471
    then some 57
    else if type == 629
    then some 118
    else if type == 671
    then some 121
    else if type == 525
    then some 88
    else if type == 531
    then some 90
    else if type == 558
    then some 99
    else if type == 564
    then some 101
    else if type == 552
    then some 97
    else if type == 486
    then some 71
    else if type == 492
    then some 74
    else if type == 498
    then some 77
    else if type == 504
    then some 80
    else none

-- The service of a request type, which is to be numeric and of namespace 0.
unfoldable pub service_of : ℕ → Identifier → Option ℕ
unfolding get_service_pointers
service_of namespace (numeric id) = if namespace == 0 then get_service_pointers id else none
service_of namespace (string s) = none
service_of namespace (guid g) = none
service_of namespace (byte_string s) = none

pub record MessageHeader : Type 0 where
  pub secure_channel_id : ℕ
  pub token_id : ℕ
  pub sequence_number : ℕ
  pub request_id : ℕ
  pub request_type : NodeId

-- What is decoded first; the status is that of the last decoding alone.
unfoldable pub message_header_decode : ⦃memory : Allocator⦄ → Decoder MessageHeader
unfolding uint32_decode node_id_decode
message_header_decode s =
    let c = uint32_decode s in
    let t = uint32_decode c.stream in
    let q = uint32_decode t.stream in
    let i = uint32_decode q.stream in
    let n = node_id_decode i.stream in
    record {
      status = n.status;
      value = record {
        secure_channel_id = c.value;
        token_id = t.value;
        sequence_number = q.value;
        request_id = i.value;
        request_type = n.value;
      };
      stream = n.stream;
    }

-- A request `R` of each type index, and the token in its header.
pub record Requests (R : Type 0) : Type 0 where
  pub decode : ℕ → Decoder R
  pub authentication_token : R → NodeId

-- No answer; `sendError` with a status and the place of the request's header; or the call of the
-- service of a type, with a session or an anonymous one.
pub data Processed (R : Type 0) : Type 0 where
  ignored : Shared → Processed R
  refused : ℕ → ℕ → Stream → Shared → Processed R
  called : ℕ → Option ℕ → R → ℕ → Stream → Shared → Processed R

-- The tokens of the connection's channel, or of the anonymous one.
abbrev pub current_token : Option Channel → Token
current_token none = zero_token
current_token (some c) = c.security_token

abbrev pub next_token : Option Channel → Token
next_token none = zero_token
next_token (some c) = c.next_security_token

abbrev pub sessions_of : Option Channel → List ℕ
sessions_of none = []
sessions_of (some c) = c.sessions

abbrev pub is_anonymous : Option Channel → Bool
is_anonymous none = true
is_anonymous (some c) = false

unfoldable pub revolve_of : Option Channel → Shared → Shared
unfolding revolve_tokens
revolve_of none sh = sh
revolve_of (some c) sh = record sh { world = modify_channel c.address revolve_tokens sh.world }

abbrev pub is_activated : Option Session → Bool
is_activated none = false
is_activated (some s) = s.activated

-- The error for a session that may not call the service.
unfoldable pub check_session : ℕ → Option ℕ → List Session → Option ℕ
unfolding session_at
check_session index none ss =
    if ltb activate_session_request index then some bad_session_id_invalid else none
check_session index (some a) ss =
    if not (is_activated (session_at a ss)) && not (index == activate_session_request)
    then some bad_session_not_activated
    else none

unfoldable pub update_lifetime_of : ℕ → Option ℕ → Shared → Shared
unfolding modify_session
update_lifetime_of now none sh = sh
update_lifetime_of now (some a) sh = record sh {
  session_manager = record (sh.session_manager) {
    sessions = modify_session a (update_lifetime now) sh.session_manager.sessions;
  };
}

module _ {R : Type 0} (requests : Requests R) (now : ℕ) where
  unfoldable pub call_service :
      ℕ → Option ℕ → R → ℕ → Stream → Stream → Option ℕ → Shared → Processed R
  unfolding update_lifetime_of
  call_service index session r request_id before after none sh =
      called index session r request_id before (update_lifetime_of now session sh)
  call_service index session r request_id before after (some status) sh =
      refused request_id status after sh

  -- From the decoding of the request to the test of the session.
  unfoldable pub process_decoded :
      Option Channel → ℕ → ℕ → Stream → Decoded R → Shared → Processed R
  unfolding get_channel_session check_session call_service
  process_decoded channel index request_id before d sh =
      let session =
        get_channel_session (requests.authentication_token d.value) (sessions_of channel)
          sh.session_manager.sessions in
      if d.status == good
      then call_service index session d.value request_id before d.stream
          (check_session index session sh.session_manager.sessions) sh
      else refused request_id d.status before sh

  -- From the test of the type of the request.
  unfoldable pub process_service : Option Channel → Option ℕ → ℕ → Stream → Shared → Processed R
  unfolding process_decoded
  process_service channel none request_id s sh = refused request_id bad_service_unsupported s sh
  process_service channel (some index) request_id s sh =
      if is_anonymous channel && ltb open_secure_channel_request index
      then refused request_id bad_secure_channel_id_invalid s sh
      else process_decoded channel index request_id s (requests.decode index s) sh

  -- From the test of the secure channel.
  unfoldable pub process_checked : Option Channel → MessageHeader → Stream → Shared → Processed R
  unfolding process_service service_of revolve_of close_channel_service
  process_checked channel h s sh =
      let service = service_of h.request_type.namespace_index h.request_type.identifier in
      if not (h.secure_channel_id == (current_token channel).channel_id)
      then ignored sh
      else if h.token_id == (current_token channel).token_id
      then process_service channel service h.request_id s sh
      else if h.token_id == (next_token channel).token_id
      then process_service channel service h.request_id s (revolve_of channel sh)
      else ignored
          (record sh { world = close_channel_service (current_token channel).channel_id sh.world })

  -- `processMSG`, up to the call of the service
  unfoldable pub process_message : ⦃memory : Allocator⦄ → ℕ → Stream → Shared → Processed R
  unfolding message_header_decode process_checked channel_of
  process_message conn s sh =
      let h = message_header_decode s in
      if h.status == good
      then process_checked (channel_of conn sh.world) h.value h.stream sh
      else ignored sh

-- The channel of the connection is closed if it has the id that was decoded.
unfoldable pub close_named : Option Channel → Decoded ℕ → Shared → Shared
unfolding close_channel_service
close_named none c sh = sh
close_named (some channel) c sh =
    if (c.status == good) && (channel.security_token.channel_id == c.value)
    then record sh { world = close_channel_service c.value sh.world }
    else sh

-- `processCLO`
unfoldable pub process_close : ℕ → Stream → Shared → Shared
unfolding uint32_decode channel_of close_named
process_close conn s sh = close_named (channel_of conn sh.world) (uint32_decode s) sh
