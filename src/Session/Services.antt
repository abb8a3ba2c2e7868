-- ===== src/Session/Services.antt =====
-- src/server/ua_services_session.c
use opc_ua.Common.{
  ℕ, Bool, true, false, not, ◌&&◌, ◌||◌, ltb, ◌==◌, if◌then◌else◌, Option, none, some, List, [],
  ◌∷◌, length,
}
use opc_ua.Status.{
  good, bad_internal_error, bad_session_id_invalid, bad_identity_token_invalid,
  bad_user_access_denied,
}
use opc_ua.Types.{UaString, null_string, chars, content, NodeId, string_equal}
use opc_ua.Channel.State.{World}
use opc_ua.Channel.Links.{attach_session, detach_session}
use opc_ua.Session.Manager.{
  Session, Shared, update_lifetime, modify_session, get_session, remove_session,
}

-- The user identity token of the request: not decoded, decoded as one of two types that are
-- known, or as another type.
pub data IdentityToken : Type 0 where
  undecoded : IdentityToken
  anonymous : UaString → IdentityToken
  user_name : UaString → UaString → UaString → UaString → IdentityToken
  other_token : IdentityToken

-- The part of the server's configuration that is read here.
pub record LoginConfig : Type 0 where
  pub enable_anonymous : Bool
  pub enable_username_password : Bool
  pub logins : List (UaString × UaString)

-- "open62541-anonymous-policy" and "open62541-username-policy"
abbrev pub anonymous_policy : UaString
anonymous_policy = chars (
    0x6F ∷ 0x70 ∷ 0x65 ∷ 0x6E ∷ 0x36 ∷ 0x32 ∷ 0x35 ∷ 0x34 ∷ 0x31 ∷ 0x2D ∷ 0x61 ∷ 0x6E ∷ 0x6F ∷ 0x6E
    ∷ 0x79 ∷ 0x6D ∷ 0x6F ∷ 0x75 ∷ 0x73 ∷ 0x2D ∷ 0x70 ∷ 0x6F ∷ 0x6C ∷ 0x69 ∷ 0x63 ∷ 0x79 ∷ [])

abbrev pub username_policy : UaString
username_policy = chars (
    0x6F ∷ 0x70 ∷ 0x65 ∷ 0x6E ∷ 0x36 ∷ 0x32 ∷ 0x35 ∷ 0x34 ∷ 0x31 ∷ 0x2D ∷ 0x75 ∷ 0x73 ∷ 0x65 ∷ 0x72
    ∷ 0x6E ∷ 0x61 ∷ 0x6D ∷ 0x65 ∷ 0x2D ∷ 0x70 ∷ 0x6F ∷ 0x6C ∷ 0x69 ∷ 0x63 ∷ 0x79 ∷ [])

abbrev pub has_data : UaString → Bool
has_data null_string = false
has_data s = true

-- The loop over the logins of the configuration.
unfoldable pub matches_login : UaString → UaString → List (UaString × UaString) → Bool
matches_login user pw [] = false
matches_login user pw (l ∷ ls) =
    if not (string_equal user l.0) || not (string_equal pw l.1)
    then matches_login user pw ls
    else true

-- The answer of the checks of the identity token; `good` means that the session is activated.
unfoldable pub check_identity : LoginConfig → IdentityToken → ℕ
unfolding matches_login
check_identity config undecoded = bad_internal_error
check_identity config other_token = bad_internal_error
check_identity config (anonymous policy) =
    if config.enable_anonymous
    then (if has_data policy && not (string_equal policy anonymous_policy)
        then bad_identity_token_invalid
        else good)
    else bad_identity_token_invalid
check_identity config (user_name policy user pw encryption) =
    if config.enable_username_password
    then (if not (string_equal policy username_policy)
        then bad_identity_token_invalid
        else if ltb 0 (length (content encryption))
        then bad_identity_token_invalid
        else if matches_login user pw config.logins
        then good
        else bad_user_access_denied)
    else bad_identity_token_invalid

-- The session leaves the channel that it is attached to, if that is another one.
unfoldable pub leave_channel : Option ℕ → ℕ → ℕ → World → World
leave_channel none channel s w = w
leave_channel (some a) channel s w = if not (a == channel) then detach_session a s w else w

-- The four lines that activate a session.
unfoldable pub activate : Bool → ℕ → ℕ → Session → Shared → Shared
unfolding leave_channel modify_session
activate allocated now channel s sh = record {
  world =
      attach_session allocated channel s.address
        (leave_channel (sh.world.session_channel s.address) channel s.address sh.world);
  session_manager = record (sh.session_manager) {
    sessions =
        modify_session s.address (λ t. update_lifetime now (record t { activated = true }))
          sh.session_manager.sessions;
  };
}

-- What follows the lookup of the session in `Service_ActivateSession`.
unfoldable pub activate_found :
    LoginConfig → Bool → ℕ → ℕ → ℕ → IdentityToken → Shared → Option Session → ℕ × Shared
unfolding check_identity activate
activate_found config allocated checked_at activated_at channel identity sh none =
    (bad_session_id_invalid, sh)
activate_found config allocated checked_at activated_at channel identity sh (some s) =
    if ltb s.valid_till checked_at
    then (bad_session_id_invalid, sh)
    else if check_identity config identity == good
    then (good, activate allocated activated_at channel s sh)
    else (check_identity config identity, sh)

-- `Service_ActivateSession`. The clock is read three times; `allocated` says whether the entry of
-- the session in the channel is allocated.
unfoldable pub activate_session :
    LoginConfig → Bool → ℕ → ℕ → ℕ → ℕ → NodeId → IdentityToken → Shared → ℕ × Shared
unfolding get_session activate_found
activate_session config allocated found_at checked_at activated_at channel token identity sh =
    activate_found config allocated checked_at activated_at channel identity sh
      (get_session found_at token sh.session_manager)

-- `Service_CloseSession`
unfoldable pub close_session : Session → Shared → ℕ × Shared
unfolding remove_session
close_session s sh = remove_session s.authentication_token sh
