-- ===== src/Message/Permission.antt =====
-- Which requests `processMSG` of src/server/ua_server_binary.c hands to a service.
use opc_ua.Common.{ℕ, ◌≡◌, ◌≤◌, ◌⊎◌, true, false, Option, none, some, List, [], ◌∷◌}
use opc_ua.Types.{NodeId}
use opc_ua.Binary.Stream.{Stream}
use opc_ua.Channel.State.{Channel}
use opc_ua.Session.Manager.{Session, Shared, has_token, session_at}
use opc_ua.Message.Requests.{
  open_secure_channel_request, activate_session_request, service_of, MessageHeader, Requests,
  Processed, ignored, refused, called, current_token, next_token, sessions_of, is_anonymous,
  is_activated,
}

-- The pointer is one of those that the channel keeps.
abbrev pub Holds : ℕ → List ℕ → Type 0
Holds a [] = ⊥
Holds a (b ∷ bs) = (a ≡ b) ⊎ Holds a bs

-- Who may call the service of a type: everybody the first ones; those with a secure channel
-- the services up to ActivateSession; and a session of the channel, found by the token of the
-- request, any service if it is activated, and ActivateSession if it is not.
abbrev pub PermitsSession : ℕ → NodeId → Option ℕ → Option Channel → List Session → Type 0
PermitsSession index token none channel ss = index ≤ activate_session_request
PermitsSession index token (some a) channel ss =
    Holds a (sessions_of channel)
    × (has_token token (session_at a ss) ≡ true)
    × ((is_activated (session_at a ss) ≡ true) ⊎ (index ≡ activate_session_request))

module _ {R : Type 0} (requests : Requests R) (now : ℕ) where
  -- A service is called only so.
  pub record Permitted (channel : Option Channel) (h : MessageHeader) (index : ℕ)
      (session : Option ℕ) (r : R) (ss : List Session) : Type 0 where
    pub channel_named : h.secure_channel_id ≡ (current_token channel).channel_id
    pub token_named :
        (h.token_id ≡ (current_token channel).token_id)
        ⊎ (h.token_id ≡ (next_token channel).token_id)
    pub typed : service_of h.request_type.namespace_index h.request_type.identifier ≡ some index
    pub with_channel : (is_anonymous channel ≡ false) ⊎ (index ≤ open_secure_channel_request)
    pub with_session : PermitsSession index (requests.authentication_token r) session channel ss

  -- A request that is not handed on changes no session.
  abbrev pub Permits : Option Channel → MessageHeader → Shared → Processed R → Type 0
  Permits channel h sh (ignored after) = after.session_manager ≡ sh.session_manager
  Permits channel h sh (refused id status s after) = after.session_manager ≡ sh.session_manager
  Permits channel h sh (called index session r id s after) =
      Permitted channel h index session r sh.session_manager.sessions

  -- The conditions that hold before the request is decoded.
  record Named (channel : Option Channel) (h : MessageHeader) (index : ℕ) : Type 0 where
    channel_named : h.secure_channel_id ≡ (current_token channel).channel_id
    token_named :
        (h.token_id ≡ (current_token channel).token_id)
        ⊎ (h.token_id ≡ (next_token channel).token_id)
    typed : service_of h.request_type.namespace_index h.request_type.identifier ≡ some index
    with_channel : (is_anonymous channel ≡ false) ⊎ (index ≤ open_secure_channel_request)
