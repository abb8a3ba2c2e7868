-- ===== src/Session/Tests.antt =====
-- Runs of the session services, and the theorems at them.
use opc_ua.Common.{
  ℕ, ◌≤◌, ◌≡◌, ◌≢◌, ◌⊎◌, refl, arith, true, false, none, some, [], ◌∷◌, if◌then◌else◌,
}
use opc_ua.Status.{good, bad_out_of_memory, bad_user_access_denied}
use opc_ua.Types.{
  chars, null_string, Guid, NodeId, numeric, guid, bytes_equal, string_equal, guid_equal,
  identifier_equal, node_id_equal,
}
use opc_ua.Channel.State.{modify}
use opc_ua.Channel.Links.{attach_session, detach_session, remove_entry}
use opc_ua.Channel.Manager.{init_manager}
use opc_ua.Session.Manager.{
  Session, SessionManager, Shared, init_session, detach_from, delete_session_members,
  init_session_manager, with_token, remove_at_address, modify_session, drop_session,
  cleanup_sessions_loop, cleanup_timed_out_sessions, get_session, revised_timeout, new_session,
  create_session, remove_found, remove_session, delete_sessions, delete_session_manager, session_at,
  get_channel_session,
}
use opc_ua.Session.Services.{
  IdentityToken, user_name, LoginConfig, username_policy, matches_login, check_identity,
  leave_channel, activate, activate_found, activate_session, close_session,
}
use opc_ua.Session.Creation.{
  CreateRequest, finish_creation, create_session_service, create_session_service-failed,
}
use opc_ua.Session.Activation.{Permits, activate_session-Permits}
use opc_ua.Session.Tokens.{remove_session-get, create_session-get}

program : Unit {0}
unfolding bytes_equal string_equal guid_equal identifier_equal node_id_equal modify attach_session
    detach_session remove_entry init_manager init_session detach_from delete_session_members
    init_session_manager with_token remove_at_address modify_session drop_session
    cleanup_sessions_loop cleanup_timed_out_sessions get_session revised_timeout new_session
    create_session remove_found remove_session matches_login check_identity leave_channel activate
    activate_found activate_session close_session finish_creation create_session_service
    delete_sessions delete_session_manager session_at get_channel_session
program = tt

abbrev random : ℕ → Guid
random n = record { data1 = n; data2 = 2; data3 = 3; data4 = 1 ∷ 2 ∷ 3 ∷ 4 ∷ 5 ∷ 6 ∷ 7 ∷ 8 ∷ [] }

abbrev token : ℕ → NodeId
token n = record { namespace_index = 1; identifier = guid (random n) }

abbrev session : ℕ → Session
session n = record {
  address = n;
  activated = false;
  session_name = null_string;
  authentication_token = token n;
  session_id = record { namespace_index = 1; identifier = numeric n };
  max_response_message_size = 0;
  timeout = 100;
  valid_till = 1_000_010;
}

abbrev two : SessionManager
two = record {
  sessions = session 1 ∷ session 2 ∷ [];
  max_session_count = 3;
  last_session_id = 3;
  current_session_count = 2;
  max_session_life_time = 500;
}

abbrev shared : Shared
unfolding program
shared = record {
  world = record {
    manager = init_manager 2 1000 1 7;
    connection_channel = λ _. none;
    session_channel = λ _. none;
    closed = [];
  };
  session_manager = two;
}

abbrev config : LoginConfig
config = record {
  enable_anonymous = false;
  enable_username_password = true;
  logins = (chars (7 ∷ []), chars (8 ∷ [])) ∷ [];
}

abbrev login : ℕ → IdentityToken
login pw = user_name username_policy (chars (7 ∷ [])) (chars (pw ∷ [])) null_string

wrong_password :
    (activate_session config true 10 10 10 4 (token 2) (login 9) shared).0 ≡ bad_user_access_denied
unfolding program
wrong_password = refl

right_password : (activate_session config true 10 10 10 4 (token 2) (login 8) shared).0 ≡ good
unfolding program
right_password = refl

cleaned : (cleanup_timed_out_sessions 1_000_011 shared).session_manager.current_session_count ≡ 0
unfolding program
cleaned = refl

activate_session-Permits_example :
    ((s : Session) × (get_session 10 (token 2) two ≡ some s)
      × Permits config (login 8)
      × (activate_session config true 10 10 10 4 (token 2) (login 8) shared
          ≡ (good, activate true 10 4 s shared)))
    ⊎ (((activate_session config true 10 10 10 4 (token 2) (login 8) shared).0 ≢ good)
        × ((activate_session config true 10 10 10 4 (token 2) (login 8) shared).1 ≡ shared))
unfolding shared
activate_session-Permits_example =
    activate_session-Permits config true 10 10 10 4 (token 2) (login 8) shared

remove_session-get_example :
    ((remove_session (token 2) shared).0 ≡ good)
    × (get_session 20 (token 1) (remove_session (token 2) shared).1.session_manager
        ≡ (if node_id_equal (token 2) (token 1) then none else get_session 20 (token 1) two))
unfolding program
remove_session-get_example =
    remove_session-get (token 2) (token 1) 20 shared (session 2)
      ((((λ h. omega arith), refl), tt), (tt, tt)) refl

create_session-get_example :
    let s = new_session 9 10 (random 3) 300 two in
    let r = create_session 10 (some 9) (random 3) 300 two in
    (r.0 ≡ good)
    × (r.1 ≡ some s)
    × (get_session 50 s.authentication_token r.2 ≡ some s)
    × (get_session 50 (token 1) r.2 ≡ get_session 50 (token 1) two)
    × (s.timeout ≤ 500)
unfolding program
create_session-get_example =
    create_session-get 10 9 300 50 (random 3) (token 1) two (omega arith) (omega arith) refl

abbrev request : CreateRequest
request = record {
  session_name = chars (65 ∷ []);
  requested_session_timeout = 300;
  max_response_message_size = 1000;
}

-- The name could not be copied.
create_session_service-failed_example :
    get_session 50
      (token 1)
      (create_session_service
        (record { endpoints = good; name = bad_out_of_memory; certificate = good })
        4
        10
        (some 9)
        (random 3)
        request
        shared).1.session_manager
    ≡ get_session 50 (token 1) shared.session_manager
unfolding program
create_session_service-failed_example =
    create_session_service-failed
      (record { endpoints = good; name = bad_out_of_memory; certificate = good }) 10 (random 3)
      request shared 50 (token 1) 4 (some 9) (λ h. omega arith)

second_on_channel : get_channel_session (token 2) (1 ∷ 2 ∷ []) two.sessions ≡ some 2
unfolding program
second_on_channel = refl

delete_all : (delete_session_manager shared).session_manager.sessions ≡ []
unfolding program
delete_all = refl
