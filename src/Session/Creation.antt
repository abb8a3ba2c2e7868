-- ===== src/Session/Creation.antt =====
-- `Service_CreateSession` of src/server/ua_services_session.c.
use opc_ua.Common.{
  ℕ, ◌≡◌, ◌≢◌, refl, inl, inr, Bool-cases, true, bit_or, leb, ◌==◌, ==_iff, if◌then◌else◌, Option,
  none, some,
}
use opc_ua.Status.{good, bad_secure_channel_id_invalid}
use opc_ua.Types.{UaString, null_string, Guid, NodeId, guid, null_node_id}
use opc_ua.NodeStore.Equality.{node_id_equal_refl}
use opc_ua.Session.Manager.{
  Session, SessionManager, Shared, with_token, remove_at_address, modify_session, drop_session,
  new_session, get_session, create_session, remove_found, remove_session,
}

-- Of the request what is read, and of the response what is written.
pub record CreateRequest : Type 0 where
  pub session_name : UaString
  pub requested_session_timeout : ℕ
  pub max_response_message_size : ℕ

pub record CreateResponse : Type 0 where
  pub service_result : ℕ
  pub session_id : NodeId
  pub revised_session_timeout : ℕ
  pub authentication_token : NodeId

-- What the copies of the endpoints, the name and the certificate return.
pub record Copies : Type 0 where
  pub endpoints : ℕ
  pub name : ℕ
  pub certificate : ℕ

abbrev pub failed : ℕ → CreateResponse
failed status = record {
  service_result = status;
  session_id = null_node_id;
  revised_session_timeout = 0;
  authentication_token = null_node_id;
}

-- The members of the new session that the service writes.
abbrev pub describe : Copies → CreateRequest → Session → Session
describe copies request s = record s {
  max_response_message_size = request.max_response_message_size;
  session_name = if copies.name == good then request.session_name else null_string;
}

abbrev pub created : ℕ → Session → CreateResponse
created status s = record {
  service_result = status;
  session_id = s.session_id;
  revised_session_timeout = s.timeout;
  authentication_token = s.authentication_token;
}

abbrev pub with_manager : Shared → SessionManager → Shared
with_manager sh sm = record sh { session_manager = sm }

-- What follows the call of `UA_SessionManager_createSession`.
unfoldable pub finish_creation :
    Copies → CreateRequest → Shared → ℕ × Option Session × SessionManager → CreateResponse × Shared
unfolding modify_session remove_session
finish_creation copies request sh (status, none, sm) = (failed status, with_manager sh sm)
finish_creation copies request sh (status, some s, sm) =
    let described =
      with_manager sh
        (record sm { sessions = modify_session s.address (describe copies request) sm.sessions }) in
    let result = bit_or copies.name copies.certificate in
    if result == good
    then (created result s, described)
    else (created result s, (remove_session s.authentication_token described).1)

-- `Service_CreateSession`, on a channel with the id `channel_id`
unfoldable pub create_session_service :
    Copies → ℕ → ℕ → Option ℕ → Guid → CreateRequest → Shared → CreateResponse × Shared
unfolding create_session finish_creation
create_session_service copies channel_id now memory random request sh =
    if channel_id == 0
    then (failed bad_secure_channel_id_invalid, sh)
    else if copies.endpoints == good
    then finish_creation copies request sh
        (create_session now memory random request.requested_session_timeout sh.session_manager)
    else (failed copies.endpoints, sh)

module _ (copies : Copies) (now : ℕ) (random : Guid) (request : CreateRequest) (sh : Shared)
    (later : ℕ) (other : NodeId) where
  finish_creation-failed :
      (memory : Option ℕ)
      → let r =
          finish_creation copies request sh (
            create_session now memory random request.requested_session_timeout
              sh.session_manager) in
        r.0.service_result ≢ good
        → get_session later other r.1.session_manager ≡ get_session later other sh.session_manager
  unfolding finish_creation create_session new_session get_session modify_session remove_session
      remove_found drop_session with_token remove_at_address
  finish_creation-failed none bad =
      elim (Bool-cases
        (leb sh.session_manager.max_session_count sh.session_manager.current_session_count)) [
          | inl full ↦ rw full refl
          | inr room ↦ rw room refl
        ]
  finish_creation-failed (some a) bad =
      let self : (a == a) ≡ true = (==_iff a a).1 refl in
      let token : NodeId = record { namespace_index = 1; identifier = guid random } in
      elim (Bool-cases
        (leb sh.session_manager.max_session_count sh.session_manager.current_session_count)) [
          | inl full ↦ rw full refl
          | inr room ↦ elim (Bool-cases (bit_or copies.name copies.certificate == good)) [
            | inl fine ↦ absurd (
                bad
                  (rw (room, fine) ((==_iff (bit_or copies.name copies.certificate) good).0 fine)))
            | inr wrong ↦ rw (room, wrong, self, node_id_equal_refl token) (rw self refl)
          ]
        ]

  -- When `Service_CreateSession` returns an error, every token finds the same session as before.
  pub create_session_service-failed :
      (channel_id : ℕ) (memory : Option ℕ)
      → let r = create_session_service copies channel_id now memory random request sh in
        r.0.service_result ≢ good
        → get_session later other r.1.session_manager ≡ get_session later other sh.session_manager
  unfolding create_session_service
  create_session_service-failed channel_id memory bad = elim (Bool-cases (channel_id == 0)) [
    | inl closed ↦ rw closed refl
    | inr open_ ↦ elim (Bool-cases (copies.endpoints == good)) [
      | inr broken ↦ rw (open_, broken) refl
      | inl copied ↦ rw (open_, copied) (finish_creation-failed memory (rw (open_, copied) at bad))
    ]
  ]
