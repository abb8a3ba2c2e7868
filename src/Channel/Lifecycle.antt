-- ===== src/Channel/Lifecycle.antt =====
-- The operations of src/server/ua_securechannel_manager.c keep the manager valid and do what they
-- promise to the channels that `UA_SecureChannelManager_get` finds.
use opc_ua.Common.{
  ℕ, ◌+◌, ◌%◌, ◌^◌, ◌<◌, ◌≡◌, ◌≢◌, refl, arith, not, ◌||◌, leb, Bool-cases, Option-cases, inl, inr,
  Option, some, List, [], ◌∷◌, All,
}
use opc_ua.Channel.State.{Channel, World, modify, at_address, with_id, init_channel}
use opc_ua.Channel.Links.{attach_secure_channel, revolve_tokens}
use opc_ua.Channel.Lists.{All-map, length-modify, at_address-with_id}
use opc_ua.Channel.Manager.{
  OpenRequest, open_channel, open_secure_channel, timed_out, has_connection, open_allocated,
  close_channel, cleanup_entry, cleanup_loop, cleanup_timed_out, addresses,
}
use opc_ua.Channel.Invariant.{
  IsChannel, channel_id, address, IsList, IsValid, IsList-modify, drop_channel-IsValid,
}

IsChannel-grow : (n : ℕ) (c : Channel) → IsChannel n c → IsChannel (n + 1) c
IsChannel-grow n c h = record { issued = omega (arith, h.issued); waiting = h.waiting }

open_allocated-IsValid :
    (now a conn : ℕ) (request : OpenRequest) (w : World)
    → All (λ c. address c ≢ a) w.manager.channels
    → w.manager.last_channel_id + 1 < 2 ^ 32
    → w.manager.current_channel_count < w.manager.max_channel_count
    → IsValid w.manager
    → IsValid (open_allocated now a conn request w).1.manager
unfolding open_allocated open_channel attach_secure_channel init_channel
open_allocated-IsValid now a conn request w fresh room below v =
    let n = w.manager.last_channel_id in
    let cs = w.manager.channels in
    let next : (n + 1) % 2 ^ 32 ≡ n + 1 = omega arith in
    record {
      counted = omega (arith, v.counted);
      limited = omega arith;
      sized = v.sized;
      listed = rw next (record {
        channels = (
          record { issued = omega arith; waiting = λ h. absurd (h refl) },
          All-map (IsChannel n) (IsChannel (n + 1)) (IsChannel-grow n) cs v.listed.channels,
        );
        ids = (
          All-map (IsChannel n) (λ d. channel_id d ≢ n) (λ c h. omega (arith, h.issued)) cs
              v.listed.channels,
          v.listed.ids,
        );
        places = (fresh, v.listed.places);
      });
    }

-- `UA_SecureChannelManager_open` keeps the manager valid, whichever way it ends, if the memory for
-- the entry is not that of another channel and the channel ids have not reached 2 ^ 32.
pub open_secure_channel-IsValid :
    (now : ℕ) (memory : Option ℕ) (conn : ℕ) (request : OpenRequest) (w : World)
    → ((a : ℕ) → memory ≡ some a → All (λ c. address c ≢ a) w.manager.channels)
    → w.manager.last_channel_id + 1 < 2 ^ 32
    → IsValid w.manager
    → IsValid (open_secure_channel now memory conn request w).2.manager
unfolding open_secure_channel
open_secure_channel-IsValid now memory conn request w fresh room v =
    elim (Bool-cases (not request.security_mode_none)) [
      | inl e ↦ rw e v
      | inr e ↦
          rw e
            (elim (Bool-cases (leb w.manager.max_channel_count w.manager.current_channel_count)) [
              | inl full ↦ rw full v
              | inr free ↦ rw free (elim (Option-cases memory) [
                | inl out ↦ rw out v
                | inr (a, got) ↦ rw got (
                    open_allocated-IsValid now a conn request w (fresh a got) room (ground arith) v)
              ])
            ])
    ]

-- `UA_SecureChannelManager_close` keeps the manager valid, whatever the id.
pub close_channel-IsValid :
    (id : ℕ) (w : World) → IsValid w.manager → IsValid (close_channel id w).1.manager
unfolding close_channel
close_channel-IsValid id w v = elim (Option-cases (with_id id w.manager.channels)) [
  | inl e ↦ rw (e, close_channel) v
  | inr (ch, e) ↦
      rw (e, close_channel)
        (drop_channel-IsValid ch w (at_address-with_id id w.manager.channels v.listed.places e) v)
]

revolve-IsList : (n a : ℕ) (cs : List Channel) → IsList n cs → IsList n (modify a revolve_tokens cs)
unfolding revolve_tokens
revolve-IsList n a cs h =
    IsList-modify n a revolve_tokens (λ c. ground arith) (λ c p. ground (arith, p.waiting))
      (λ c p. record {
        issued = ground (arith, p.waiting, p.issued);
        waiting = ground (arith, p.waiting);
      })
      cs h

cleanup_entry-IsValid :
    (now : ℕ) (ch : Channel) (w : World)
    → at_address ch.address w.manager.channels ≡ some ch
    → IsValid w.manager
    → IsValid (cleanup_entry now ch w).manager
unfolding cleanup_entry
cleanup_entry-IsValid now ch w found v =
    elim (Bool-cases (timed_out now ch || not (has_connection ch))) [
      | inl gone ↦ rw gone (drop_channel-IsValid ch w found v)
      | inr stays ↦ rw stays (record {
        counted =
            omega (arith, v.counted, length-modify ch.address revolve_tokens w.manager.channels);
        limited = v.limited;
        sized = v.sized;
        listed = revolve-IsList w.manager.last_channel_id ch.address w.manager.channels v.listed;
      })
    ]

at_address-address :
    (a : ℕ) (cs : List Channel) {c : Channel} → at_address a cs ≡ some c → c.address ≡ a
unfolding at_address
at_address-address a [] h = cc
at_address-address a (d ∷ cs) {c} h = ground (arith, at_address-address a cs {c = c})

cleanup_loop-IsValid :
    (now : ℕ) (rest : List ℕ) (w : World)
    → IsValid w.manager
    → IsValid (cleanup_loop now rest w).manager
unfolding cleanup_loop
cleanup_loop-IsValid now [] w v = v
cleanup_loop-IsValid now (a ∷ rest) w v = elim (Option-cases (at_address a w.manager.channels)) [
  | inl e ↦ rw (e, cleanup_loop) (cleanup_loop-IsValid now rest w v)
  | inr (ch, e) ↦
      let here : at_address ch.address w.manager.channels ≡ some ch =
        cc (at_address-address a w.manager.channels e, e) in
      rw (e, cleanup_loop)
        (cleanup_loop-IsValid now rest (cleanup_entry now ch w)
          (cleanup_entry-IsValid now ch w here v))
]

-- `UA_SecureChannelManager_cleanupTimedOut` keeps the manager valid at any time: the count follows
-- the channels that are removed, also where cleaning up one of them disconnects another, and the
-- tokens that take over name the channel that they were issued for.
pub cleanup_timed_out-IsValid :
    (now : ℕ) (w : World) → IsValid w.manager → IsValid (cleanup_timed_out now w).manager
unfolding cleanup_timed_out
cleanup_timed_out-IsValid now w v = cleanup_loop-IsValid now (addresses w.manager.channels) w v
