-- ===== src/Session/Manager.antt =====
-- src/ua_session.c and src/server/ua_session_manager.c. A pointer to a session is a number; the
-- `channel` pointers of the sessions stand in the memory that the channel code shares.
use opc_ua.Common.{
  ℕ, ◌+◌, ◌*◌, ◌-◌, ◌%◌, ◌^◌, Bool, false, ◌&&◌, ltb, leb, ◌==◌, if◌then◌else◌, Option, none, some,
  List, [], ◌∷◌,
}
use opc_ua.Status.{good, bad_out_of_memory, bad_too_many_sessions, bad_session_id_invalid}
use opc_ua.Types.{UaString, null_string, Guid, NodeId, numeric, guid, null_node_id, node_id_equal}
use opc_ua.Channel.State.{World}
use opc_ua.Channel.Links.{detach_session}

-- `UA_Session`, without the description of the client and the continuation points
pub record Session : Type 0 where
  pub address : ℕ
  pub activated : Bool
  pub session_name : UaString
  pub authentication_token : NodeId
  pub session_id : NodeId
  pub max_response_message_size : ℕ
  pub timeout : ℕ
  pub valid_till : ℕ

pub record SessionManager : Type 0 where
  pub sessions : List Session
  pub max_session_count : ℕ
  pub last_session_id : ℕ
  pub current_session_count : ℕ
  pub max_session_life_time : ℕ

-- The sessions with the memory of the channels.
pub record Shared : Type 0 where
  pub world : World
  pub session_manager : SessionManager

-- `UA_Session_init`
unfoldable pub init_session : ℕ → Session
init_session a = record {
  address = a;
  activated = false;
  session_name = null_string;
  authentication_token = null_node_id;
  session_id = null_node_id;
  max_response_message_size = 0;
  timeout = 0;
  valid_till = 0;
}

-- `UA_Session_updateLifetime`; the timeout is in milliseconds, a time in steps of 100 ns
abbrev pub update_lifetime : ℕ → Session → Session
update_lifetime now s = record s { valid_till = now + s.timeout * 10000 }

-- The pointer to the channel, if there is one, is followed by `UA_SecureChannel_detachSession`.
unfoldable pub detach_from : Option ℕ → ℕ → World → World
detach_from none s w = w
detach_from (some a) s w = detach_session a s w

-- `UA_Session_deleteMembersCleanup`
unfoldable pub delete_session_members : ℕ → World → World
unfolding detach_from
delete_session_members s w = detach_from (w.session_channel s) s w

-- `UA_SessionManager_init`
unfoldable pub init_session_manager : ℕ → ℕ → ℕ → SessionManager
init_session_manager max_count life_time start_id = record {
  sessions = [];
  max_session_count = max_count;
  last_session_id = start_id;
  current_session_count = 0;
  max_session_life_time = life_time;
}

-- The first session with the token.
unfoldable pub with_token : NodeId → List Session → Option Session
with_token token [] = none
with_token token (s ∷ ss) =
    if node_id_equal s.authentication_token token then some s else with_token token ss

-- `LIST_REMOVE`
unfoldable pub remove_at_address : ℕ → List Session → List Session
remove_at_address a [] = []
remove_at_address a (s ∷ ss) = if s.address == a then ss else s ∷ remove_at_address a ss

-- The write through a pointer to a session.
unfoldable pub modify_session : ℕ → (Session → Session) → List Session → List Session
modify_session a f [] = []
modify_session a f (s ∷ ss) = if s.address == a then f s ∷ ss else s ∷ modify_session a f ss

-- A session leaves the list, is cleaned up and counted off.
unfoldable pub drop_session : Session → Shared → Shared
unfolding remove_at_address delete_session_members
drop_session s sh = record {
  world = delete_session_members s.address sh.world;
  session_manager = record (sh.session_manager) {
    sessions = remove_at_address s.address sh.session_manager.sessions;
    current_session_count = (sh.session_manager.current_session_count + (2 ^ 32 - 1)) % 2 ^ 32;
  };
}

-- The loop of `UA_SessionManager_cleanupTimedOut`, over the entries that it starts with.
unfoldable pub cleanup_sessions_loop : ℕ → List Session → Shared → Shared
unfolding drop_session
cleanup_sessions_loop now [] sh = sh
cleanup_sessions_loop now (s ∷ ss) sh =
    cleanup_sessions_loop now ss (if ltb s.valid_till now then drop_session s sh else sh)

-- `UA_SessionManager_cleanupTimedOut`
unfoldable pub cleanup_timed_out_sessions : ℕ → Shared → Shared
unfolding cleanup_sessions_loop
cleanup_timed_out_sessions now sh = cleanup_sessions_loop now sh.session_manager.sessions sh

-- A session that has timed out is not returned.
abbrev pub unless_late : ℕ → Option Session → Option Session
unless_late now none = none
unless_late now (some s) = if ltb s.valid_till now then none else some s

-- `UA_SessionManager_getSession`, at the time `now`
unfoldable pub get_session : ℕ → NodeId → SessionManager → Option Session
unfolding with_token
get_session now token sm = unless_late now (with_token token sm.sessions)

-- The timeout that is asked for, if it is allowed and not 0, and else the maximum.
unfoldable pub revised_timeout : ℕ → ℕ → ℕ
revised_timeout most asked = if leb asked most && ltb 0 asked then asked else most

-- The session of `UA_SessionManager_createSession`; `random` is what `UA_Guid_random` returns
unfoldable pub new_session : ℕ → ℕ → Guid → ℕ → SessionManager → Session
unfolding init_session revised_timeout
new_session a now random asked sm = update_lifetime now (record (init_session a) {
  session_id = record { namespace_index = 1; identifier = numeric sm.last_session_id };
  authentication_token = record { namespace_index = 1; identifier = guid random };
  timeout = revised_timeout sm.max_session_life_time asked;
})

-- `UA_SessionManager_createSession`; `memory` is what `UA_malloc` returns for the entry
unfoldable pub create_session :
    ℕ → Option ℕ → Guid → ℕ → SessionManager → ℕ × Option Session × SessionManager
unfolding new_session
create_session now memory random asked sm =
    if leb sm.max_session_count sm.current_session_count
    then (bad_too_many_sessions, none, sm)
    else elim memory [
      | none ↦ (bad_out_of_memory, none, sm)
      | some a ↦
          let s = new_session a now random asked sm in
          (
            good,
            some s,
            record sm {
              sessions = s ∷ sm.sessions;
              last_session_id = (sm.last_session_id + 1) % 2 ^ 32;
              current_session_count = (sm.current_session_count + 1) % 2 ^ 32;
            },
          )
    ]

-- What follows the loop of `UA_SessionManager_removeSession`.
unfoldable pub remove_found : Shared → Option Session → ℕ × Shared
unfolding drop_session
remove_found sh none = (bad_session_id_invalid, sh)
remove_found sh (some s) = (good, drop_session s sh)

-- `UA_SessionManager_removeSession`
unfoldable pub remove_session : NodeId → Shared → ℕ × Shared
unfolding with_token remove_found
remove_session token sh = remove_found sh (with_token token sh.session_manager.sessions)

-- The loop of `UA_SessionManager_deleteMembers`, which keeps the counts.
unfoldable pub delete_sessions : List Session → World → World
unfolding delete_session_members
delete_sessions [] w = w
delete_sessions (s ∷ ss) w = delete_sessions ss (delete_session_members s.address w)

-- `UA_SessionManager_deleteMembers`
unfoldable pub delete_session_manager : Shared → Shared
unfolding delete_sessions
delete_session_manager sh = record {
  world = delete_sessions sh.session_manager.sessions sh.world;
  session_manager = record (sh.session_manager) { sessions = [] };
}

-- The session at a pointer.
unfoldable pub session_at : ℕ → List Session → Option Session
session_at a [] = none
session_at a (s ∷ ss) = if s.address == a then some s else session_at a ss

abbrev pub has_token : NodeId → Option Session → Bool
has_token token none = false
has_token token (some s) = node_id_equal s.authentication_token token

-- `UA_SecureChannel_getSession`, over the pointers that a channel keeps to its sessions
unfoldable pub get_channel_session : NodeId → List ℕ → List Session → Option ℕ
unfolding session_at
get_channel_session token [] ss = none
get_channel_session token (a ∷ places) ss =
    if has_token token (session_at a ss) then some a else get_channel_session token places ss
