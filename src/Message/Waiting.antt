-- ===== src/Message/Waiting.antt =====
-- A connection without a HEL message, in src/server/ua_server_binary.c.
use opc_ua.Common.{
  ℕ, ◌+◌, ◌^◌, ◌<◌, ◌++◌, ◌≡◌, ◌≢◌, refl, ap₂, ◌∙◌, Bool, true, false, Option, none, some, List, [],
  ◌∷◌, length, take, All,
}
use opc_ua.Binary.Stream.{Stream, Decoder, Allocator, from_le}
use opc_ua.Channel.State.{Manager, at_address}
use opc_ua.Channel.Manager.{OpenRequest, channel_of}
use opc_ua.Session.Manager.{Shared}
use opc_ua.Message.Processing.{
  Kind, hello, open_channel, request, close_channel, unknown, kind_of, Round, goes_on, ends,
  process_kind,
}
use opc_ua.Message.Requests.{close_named, process_close}
use opc_ua.Message.Connecting.{
  Server, close_connection_of, Outside, process_open, Services, server_handlers,
}
use opc_ua.Message.Delivery.{
  followed_by, process_each, process_delivered, complete_messages-processes,
}
use opc_ua.Connection.Assembly.{Memory, complete_messages}
use opc_ua.Connection.Scanning.{IsMessage, IsPartial, join}
use opc_ua.Connection.Delivery.{IsAmple}

-- Nothing but the connection's state has changed.
pub record Untouched (before after : Server) : Type 0 where
  pub waiting : after.established ≡ false
  pub sessions : after.shared.session_manager ≡ before.shared.session_manager
  pub channels : after.shared.world.manager ≡ before.shared.world.manager
  pub links : after.shared.world.connection_channel ≡ before.shared.world.connection_channel
  pub sent : after.sent ≡ before.sent

abbrev pub is_hello : Kind → Bool
is_hello hello = true
is_hello k = false

process_close-alone :
    (conn : ℕ) (s : Stream) (sh : Shared)
    → channel_of conn sh.world ≡ none
    → process_close conn s sh ≡ sh
unfolding process_close close_named
process_close-alone conn s sh alone = rw alone refl

module _ {R : Type 0} (services : Services R) ⦃memory : Allocator⦄
    (request_decode : Decoder (Bool × OpenRequest)) (out : Outside) (conn : ℕ) where
  round_state : Round Server → Server
  round_state (goes_on sv) = sv
  round_state (ends sv) = sv

  closed-Untouched : (sv : Server) → Untouched sv (close_connection_of conn sv)
  closed-Untouched sv = record {
    waiting = refl;
    sessions = refl;
    channels = refl;
    links = refl;
    sent = refl;
  }

  process_kind-Untouched :
      (k : Kind) (bytes : List ℕ) (pos : ℕ) (sv : Server)
      → is_hello k ≡ false
      → sv.established ≡ false
      → channel_of conn sv.shared.world ≡ none
      → Untouched sv (
          round_state
            (process_kind (server_handlers services request_decode out conn) k bytes pos sv))
  unfolding process_kind server_handlers round_state process_open
  process_kind-Untouched hello bytes pos sv other waiting alone = let e : true ≡ false = other in cc
  process_kind-Untouched open_channel bytes pos sv other waiting alone =
      simp (waiting) (closed-Untouched sv)
  process_kind-Untouched request bytes pos sv other waiting alone =
      simp (waiting) (closed-Untouched sv)
  process_kind-Untouched close_channel bytes pos sv other waiting alone =
      rw (process_close-alone conn (record { bytes = bytes; offset = pos }) sv.shared alone)
        (closed-Untouched sv)
  process_kind-Untouched unknown bytes pos sv other waiting alone = record {
    waiting = waiting;
    sessions = refl;
    channels = refl;
    links = refl;
    sent = refl;
  }

  Untouched-next : (a b c : Server) → Untouched a b → Untouched b c → Untouched a c
  Untouched-next a b c first second = record {
    waiting = second.waiting;
    sessions = second.sessions ∙ first.sessions;
    channels = second.channels ∙ first.channels;
    links = second.links ∙ first.links;
    sent = second.sent ∙ first.sent;
  }

  channel_of-Untouched :
      (a b : Server)
      → Untouched a b
      → channel_of conn a.shared.world ≡ none
      → channel_of conn b.shared.world ≡ none
  unfolding channel_of
  channel_of-Untouched a b same alone =
      ap₂
        (λ (links : ℕ → Option ℕ) (m : Manager). elim (links conn) [
          | none ↦ none
          | some c ↦ at_address c m.channels
        ])
        same.links same.channels
      ∙ alone

  followed_by-Untouched :
      (sv : Server) (r : Round Server) (rest : Server → Server)
      → Untouched sv (round_state r)
      → ((t : Server) → Untouched sv t → Untouched sv (rest t))
      → Untouched sv (followed_by r rest)
  unfolding round_state
  followed_by-Untouched sv (goes_on t) rest same go = go t same
  followed_by-Untouched sv (ends t) rest same go = same

  -- The messages are of other types than HEL.
  abbrev pub IsOther : List ℕ → Type 0
  IsOther m = is_hello (kind_of (from_le (take 4 m))) ≡ false

  process_each-Untouched :
      (bytes : List ℕ) (pos : ℕ) (ms : List (List ℕ)) (sv : Server)
      → All IsOther ms
      → sv.established ≡ false
      → channel_of conn sv.shared.world ≡ none
      → Untouched sv
          (process_each (server_handlers services request_decode out conn) bytes pos ms sv)
  unfolding process_each
  process_each-Untouched bytes pos [] sv other waiting alone = record {
    waiting = waiting;
    sessions = refl;
    channels = refl;
    links = refl;
    sent = refl;
  }
  process_each-Untouched bytes pos (m ∷ ms) sv other waiting alone =
      followed_by-Untouched sv
        (process_kind (server_handlers services request_decode out conn)
          (kind_of (from_le (take 4 m))) bytes (pos + 8) sv)
        (λ (t : Server).
          process_each (server_handlers services request_decode out conn) bytes (pos + length m) ms
            t)
        (process_kind-Untouched (kind_of (from_le (take 4 m))) bytes (pos + 8) sv other.0 waiting
          alone)
        (λ t same. Untouched-next sv t _ same (
          process_each-Untouched bytes (pos + length m) ms t other.1 same.waiting
            (channel_of-Untouched sv t same alone)))

  -- If memory can be allocated, the connection is not established and has no channel, and the bytes
  -- that it keeps and those that arrive make up whole messages, none of them a HEL message, and the
  -- beginning of one, but not a single byte, then the server ends the processing of what arrives with
  -- its sessions, its channels and their connections as they were, has sent nothing, and the
  -- connection is not established.
  pub complete_messages-Untouched :
      (mem : Memory) (max : ℕ) (old new : List ℕ) (ms : List (List ℕ)) (r : List ℕ) (sv : Server)
      → IsAmple mem
      → max < 2 ^ 31
      → All (IsMessage max) ms
      → IsPartial max r
      → old ++ new ≡ join ms ++ r
      → length (old ++ new) ≢ 1
      → length (old ++ new) < 2 ^ 64
      → All IsOther ms
      → sv.established ≡ false
      → channel_of conn sv.shared.world ≡ none
      → (after : Server) × (process_delivered
            (server_handlers services request_decode out conn)
            (complete_messages mem max old new).message
            sv
          ≡ some after)
        × Untouched sv after
  complete_messages-Untouched mem max old new ms r sv ample small ok partial e many bound other
        waiting alone =
      (
        process_each (server_handlers services request_decode out conn) (join ms) 0 ms sv,
        (complete_messages-processes (server_handlers services request_decode out conn) mem max old
            new ms r sv ample small ok partial e many bound).0,
        process_each-Untouched (join ms) 0 ms sv other waiting alone,
      )
