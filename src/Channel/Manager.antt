-- ===== src/Channel/Manager.antt =====
-- The operations of src/server/ua_securechannel_manager.c.
use opc_ua.Common.{
  ℕ, ◌+◌, ◌-◌, ◌*◌, ◌%◌, ◌^◌, Bool, true, false, not, ◌||◌, ltb, leb, ◌==◌, if◌then◌else◌, Option,
  none, some, List, [], ◌∷◌,
}
use opc_ua.Status.{good, bad_internal_error, bad_out_of_memory, bad_security_mode_rejected}
use opc_ua.Channel.State.{
  Token, Channel, Manager, World, modify, remove, at_address, with_id, init_channel, set_channels,
  modify_channel,
}
use opc_ua.Channel.Links.{attach_secure_channel, delete_members_cleanup, revolve_tokens}

-- Of `UA_OpenSecureChannelRequest` what the manager reads; `security_mode_none` is the test of
-- the mode.
pub record OpenRequest : Type 0 where
  pub security_mode_none : Bool
  pub requested_lifetime : ℕ
  pub client_nonce : List ℕ

-- Of `UA_OpenSecureChannelResponse` what the manager writes.
pub record OpenResponse : Type 0 where
  pub server_nonce : List ℕ
  pub security_token : Token

-- `UA_SecureChannelManager_init`
unfoldable pub init_manager : ℕ → ℕ → ℕ → ℕ → Manager
init_manager max_count lifetime channel_id token_id = record {
  channels = [];
  max_channel_count = max_count;
  current_channel_count = 0;
  max_channel_lifetime = lifetime;
  last_channel_id = channel_id;
  last_token_id = token_id;
}

-- The lifetime that is asked for, at most the maximum; and the maximum for 0.
unfoldable pub revise_lifetime : ℕ → ℕ → ℕ
revise_lifetime most asked =
    let revised = if ltb most asked then most else asked in if revised == 0 then most else revised

-- `UA_SecureChannel_generateNonce`: the byte 'a'
abbrev pub generate_nonce : List ℕ
generate_nonce = 0x61 ∷ []

-- The channel of `UA_SecureChannelManager_open`, before it is linked.
unfoldable pub open_channel : ℕ → ℕ → OpenRequest → Manager → Channel
unfolding init_channel revise_lifetime
open_channel a now request cm = record (init_channel a) {
  security_token = record {
    channel_id = cm.last_channel_id;
    token_id = cm.last_token_id;
    created_at = now;
    revised_lifetime = revise_lifetime cm.max_channel_lifetime request.requested_lifetime;
  };
  client_nonce = request.client_nonce;
  server_nonce = generate_nonce;
}

-- `UA_SecureChannelManager_open` behind its guards, with memory for the entry at `a`. The counters
-- are 32 bits wide.
unfoldable pub open_allocated : ℕ → ℕ → ℕ → OpenRequest → World → OpenResponse × World
unfolding open_channel attach_secure_channel
open_allocated now a conn request w =
    let cm = w.manager in
    let ch = open_channel a now request cm in
    let linked = attach_secure_channel conn ch w in
    (
      record { server_nonce = ch.server_nonce; security_token = ch.security_token },
      record (linked.1) {
        manager = record cm {
          channels = linked.0 ∷ cm.channels;
          current_channel_count = cm.current_channel_count + 1;
          last_channel_id = (cm.last_channel_id + 1) % 2 ^ 32;
          last_token_id = (cm.last_token_id + 1) % 2 ^ 32;
        };
      },
    )

-- `UA_SecureChannelManager_open` at the time `now`. `memory` is the address that `UA_malloc`
-- returned for the entry, if it did.
unfoldable pub open_secure_channel :
    ℕ → Option ℕ → ℕ → OpenRequest → World → ℕ × Option OpenResponse × World
unfolding open_allocated
open_secure_channel now memory conn request w =
    if not request.security_mode_none
    then (bad_security_mode_rejected, none, w)
    else if leb w.manager.max_channel_count w.manager.current_channel_count
    then (bad_out_of_memory, none, w)
    else elim memory [
      | none ↦ (bad_out_of_memory, none, w)
      | some a ↦ let opened = open_allocated now a conn request w in (good, some opened.0, opened.1)
    ]

-- The token that `UA_SecureChannelManager_renew` issues, if none is waiting.
unfoldable pub renew_token : ℕ → OpenRequest → Manager → Channel → Token
unfolding revise_lifetime
renew_token now request cm ch =
    if ch.next_security_token.token_id == 0
    then record {
      channel_id = ch.security_token.channel_id;
      token_id = cm.last_token_id;
      created_at = now;
      revised_lifetime = revise_lifetime cm.max_channel_lifetime request.requested_lifetime;
    }
    else ch.next_security_token

-- `UA_SecureChannelManager_renew` at the channel of the connection.
unfoldable pub renew_channel : ℕ → OpenRequest → Channel → World → OpenResponse × World
unfolding renew_token modify
renew_channel now request ch w =
    let cm = w.manager in
    let token = renew_token now request cm ch in
    (
      record { server_nonce = ch.server_nonce; security_token = token },
      record w {
        manager = record cm {
          channels =
              modify ch.address
                (λ c. record c { next_security_token = token; client_nonce = request.client_nonce })
                cm.channels;
          last_token_id =
              if ch.next_security_token.token_id == 0
              then (cm.last_token_id + 1) % 2 ^ 32
              else cm.last_token_id;
        };
      },
    )

-- The channel that a connection points to; it is in the list, since the channels off the list
-- were detached.
unfoldable pub channel_of : ℕ → World → Option Channel
unfolding at_address
channel_of conn w = elim (w.connection_channel conn) [
  | none ↦ none
  | some a ↦ at_address a w.manager.channels
]

-- `UA_SecureChannelManager_renew`
unfoldable pub renew_secure_channel : ℕ → ℕ → OpenRequest → World → ℕ × Option OpenResponse × World
unfolding renew_channel channel_of
renew_secure_channel now conn request w = elim (channel_of conn w) [
  | none ↦ (bad_internal_error, none, w)
  | some ch ↦ let renewed = renew_channel now request ch w in (good, some renewed.0, renewed.1)
]

-- `UA_SecureChannelManager_get`
unfoldable pub get_channel : ℕ → World → Option Channel
unfolding with_id
get_channel id w = with_id id w.manager.channels

-- A channel is taken off the list, cleaned up and counted off. `size_t` wraps at 2 ^ 64.
unfoldable pub drop_channel : Channel → World → World
unfolding remove delete_members_cleanup
drop_channel ch w =
    let cleaned =
      delete_members_cleanup ch (set_channels (remove ch.address w.manager.channels) w) in
    let cm = cleaned.manager in
    record cleaned {
      manager = record cm {
        current_channel_count = (cm.current_channel_count + (2 ^ 64 - 1)) % 2 ^ 64;
      };
    }

-- `UA_SecureChannelManager_close`
unfoldable pub close_channel : ℕ → World → ℕ × World
unfolding with_id drop_channel
close_channel id w = elim (with_id id w.manager.channels) [
  | none ↦ (bad_internal_error, w)
  | some ch ↦ (good, drop_channel ch w)
]

-- The lifetime is in milliseconds, and a time counts steps of 100 ns.
unfoldable pub timed_out : ℕ → Channel → Bool
timed_out now ch =
    ltb (ch.security_token.created_at + ch.security_token.revised_lifetime * 10000) now

abbrev pub has_connection : Channel → Bool
has_connection ch = elim ch.connection [ none ↦ false | some _ ↦ true ]

-- One round of the loop of `UA_SecureChannelManager_cleanupTimedOut`.
unfoldable pub cleanup_entry : ℕ → Channel → World → World
unfolding timed_out drop_channel modify revolve_tokens
cleanup_entry now ch w =
    if timed_out now ch || not (has_connection ch)
    then drop_channel ch w
    else modify_channel ch.address revolve_tokens w

-- The loop walks along the addresses in the list, and reads each entry when it gets there. (The
-- test of the next token in the loop is the one that `revolve_tokens` makes.)
unfoldable pub cleanup_loop : ℕ → List ℕ → World → World
unfolding cleanup_entry at_address
cleanup_loop now [] w = w
cleanup_loop now (a ∷ rest) w =
    cleanup_loop now rest
      (elim (at_address a w.manager.channels) [ none ↦ w | some ch ↦ cleanup_entry now ch w ])

unfoldable pub addresses : List Channel → List ℕ
addresses [] = []
addresses (c ∷ cs) = c.address ∷ addresses cs

-- `UA_SecureChannelManager_cleanupTimedOut`
unfoldable pub cleanup_timed_out : ℕ → World → World
unfolding cleanup_loop addresses
cleanup_timed_out now w = cleanup_loop now (addresses w.manager.channels) w
