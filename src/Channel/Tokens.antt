-- ===== src/Channel/Tokens.antt =====
-- Which security tokens the operations of src/server/ua_securechannel_manager.c make current,
-- issue and take away, as `UA_SecureChannelManager_get` shows them.
use opc_ua.Common.{
  ℕ, ◌<◌, ◌≤◌, ◌≡◌, ◌≢◌, refl, sym, ap, ◌∙◌, arith, subst, ◌==◌, if◌then◌else◌, Bool-cases,
  Option-cases, inl, inr, Option, none, some, List, [], ◌∷◌, All,
}
use opc_ua.Status.{good, bad_internal_error}
use opc_ua.Channel.State.{
  Channel, Manager, World, modify, remove, at_address, with_id, set_channels,
}
use opc_ua.Channel.Links.{
  attach_secure_channel, detach_secure_channel, forget_sessions, disconnect, close_connection,
  delete_members_cleanup,
}
use opc_ua.Channel.Lists.{
  Distinct, All-at_address, at_address-with_id, with_id-channel_id, with_id-none,
}
use opc_ua.Channel.Manager.{
  OpenRequest, OpenResponse, open_channel, open_secure_channel, drop_channel, close_channel,
}
use opc_ua.Channel.State.{Token, init_channel}
use opc_ua.Channel.Manager.{open_allocated, get_channel, revise_lifetime}
use opc_ua.Channel.Invariant.{channel_id, address, IsValid}

abbrev token_of : Option Channel → Option Token
token_of none = none
token_of (some c) = some c.security_token

-- The current token of the channel with the id.
abbrev pub current_token : ℕ → World → Option Token
current_token id w = token_of (get_channel id w)

revise_lifetime_bounds :
    (most asked : ℕ)
    → (revise_lifetime most asked ≤ most)
      × (0 < most → 0 < revise_lifetime most asked)
      × (0 < asked → asked ≤ most → revise_lifetime most asked ≡ asked)
unfolding revise_lifetime
revise_lifetime_bounds most asked = ground arith

-- What an opened channel and the response to the client have to do with one another.
pub record Grants (conn : ℕ) (request : OpenRequest) (w : World) (response : OpenResponse)
    (w' : World) : Type 0 where
  pub channel : Channel
  pub found : get_channel response.security_token.channel_id w' ≡ some channel
  pub same_token : channel.security_token ≡ response.security_token
  pub connected : channel.connection ≡ some conn
  pub linked : w'.connection_channel conn ≡ some channel.address
  pub at_most : response.security_token.revised_lifetime ≤ w.manager.max_channel_lifetime
  pub positive : 0 < w.manager.max_channel_lifetime → 0 < response.security_token.revised_lifetime
  pub as_asked :
      0 < request.requested_lifetime
      → request.requested_lifetime ≤ w.manager.max_channel_lifetime
      → response.security_token.revised_lifetime ≡ request.requested_lifetime

open_allocated-Grants :
    (now a conn : ℕ) (request : OpenRequest) (w : World)
    → let opened = open_allocated now a conn request w in Grants conn request w opened.0 opened.1
unfolding open_allocated open_channel attach_secure_channel init_channel get_channel with_id
open_allocated-Grants now a conn request w =
    let bounds = revise_lifetime_bounds w.manager.max_channel_lifetime request.requested_lifetime in
    record {
      channel = record (open_channel a now request w.manager) { connection = some conn };
      found = ground arith;
      same_token = refl;
      connected = refl;
      linked = ground arith;
      at_most = bounds.0;
      positive = bounds.1;
      as_asked = bounds.2;
    }

open_secure_channel_inversion :
    (now : ℕ) (memory : Option ℕ) (conn : ℕ) (request : OpenRequest) (w : World)
    (response : OpenResponse) (w' : World)
    → open_secure_channel now memory conn request w ≡ (good, some response, w')
    → (a : ℕ) × (response ≡ (open_allocated now a conn request w).0)
      × (w' ≡ (open_allocated now a conn request w).1)
unfolding open_secure_channel
open_secure_channel_inversion now none conn request w response w' h = ground arith
open_secure_channel_inversion now (some a) conn request w response w' h =
    (a, ground arith, ground arith)

-- After a successful `UA_SecureChannelManager_open` the token in the response is the current one
-- of the channel that `UA_SecureChannelManager_get` finds under its id; the connection and that
-- channel point to one another; and the lifetime is at most the maximum, not 0 unless the maximum
-- is, and the one that was asked for wherever that is allowed and not 0.
pub open_secure_channel-Grants :
    (now : ℕ) (memory : Option ℕ) (conn : ℕ) (request : OpenRequest) (w : World)
    (response : OpenResponse) (w' : World)
    → open_secure_channel now memory conn request w ≡ (good, some response, w')
    → Grants conn request w response w'
open_secure_channel-Grants now memory conn request w response w' h =
    let (a, r, s) = open_secure_channel_inversion now memory conn request w response w' h in
    rw (r, s) (open_allocated-Grants now a conn request w)

with_id-remove :
    (id a : ℕ) (cs : List Channel) {c : Channel}
    → at_address a cs ≡ some c
    → channel_id c ≢ id
    → with_id id (remove a cs) ≡ with_id id cs
unfolding with_id remove at_address
with_id-remove id a [] h n = refl
with_id-remove id a (d ∷ cs) {c} h n = ground (arith, with_id-remove id a cs {c = c})

token_of-disconnect :
    (id a : ℕ) (cs : List Channel)
    → token_of (with_id id (modify a (λ c. record c { connection = none }) cs))
      ≡ token_of (with_id id cs)
unfolding with_id modify
token_of-disconnect id a [] = refl
token_of-disconnect id a (c ∷ cs) = ground (arith, token_of-disconnect id a cs)

forget_sessions-manager : (ss : List ℕ) (w : World) → (forget_sessions ss w).manager ≡ w.manager
unfolding forget_sessions
forget_sessions-manager [] w = refl
forget_sessions-manager (s ∷ ss) w = forget_sessions-manager ss _

close_connection-token :
    (o : Option ℕ) (id : ℕ) (w : World)
    → current_token id (close_connection o w) ≡ current_token id w
unfolding close_connection detach_secure_channel disconnect get_channel
close_connection-token none id w = refl
close_connection-token (some c) id w = go (w.connection_channel c)
  where
    go :
        (p : Option ℕ)
        → token_of (with_id id (disconnect p w).manager.channels)
          ≡ token_of (with_id id w.manager.channels)
    go none = refl
    go (some a) = token_of-disconnect id a w.manager.channels

drop_channel-token :
    (id : ℕ) (ch : Channel) (w : World)
    → current_token id (drop_channel ch w)
      ≡ token_of (with_id id (remove ch.address w.manager.channels))
unfolding drop_channel delete_members_cleanup get_channel
drop_channel-token id ch w =
    ap (λ (m : Manager). token_of (with_id id m.channels)) (forget_sessions-manager ch.sessions _)
    ∙ close_connection-token ch.connection id
        (set_channels (remove ch.address w.manager.channels) w)

-- The other channels have other ids than the one that is removed.
removed_id :
    (a : ℕ) (cs : List Channel) {c : Channel}
    → at_address a cs ≡ some c
    → Distinct channel_id cs
    → All (λ d. channel_id d ≢ channel_id c) (remove a cs)
unfolding at_address remove
removed_id a [] h n = tt
removed_id a (d ∷ cs) {c} h n = elim (Bool-cases (d.address == a)) [
  | inl e ↦
      let same : d ≡ c = cc (rw e at h) in
      rw e (subst (λ k. All (λ x. channel_id x ≢ channel_id k) cs) same n.0)
  | inr e ↦
      let rest : at_address a cs ≡ some c = rw e at h in
      rw e (
        λ q. All-at_address (λ x. channel_id x ≢ channel_id d) a cs n.0 rest (sym q),
        removed_id a cs rest n.1,
      )
]

-- The lookup after the channel that was found by `id` is taken off.
token_of-remove :
    (id other : ℕ) (cs : List Channel) {ch : Channel}
    → Distinct address cs
    → Distinct channel_id cs
    → with_id id cs ≡ some ch
    → token_of (with_id other (remove ch.address cs))
      ≡ (if other == id then none else token_of (with_id other cs))
token_of-remove id other cs {ch} places ids e =
    let at = at_address-with_id id cs places e in
    let named = with_id-channel_id id cs e in
    elim (Bool-cases (other == id)) [
      | inl same ↦
          let gone : with_id other (remove ch.address cs) ≡ none =
            with_id-none other (remove ch.address cs) (
              subst (λ k. All (λ d. channel_id d ≢ k) (remove ch.address cs))
                (ground (arith, named)) (removed_id ch.address cs at ids)) in
          rw (same, gone)
      | inr differs ↦
          rw (differs, with_id-remove other ch.address cs at (λ q. ground (arith, named, q)))
    ]

-- On a valid manager `UA_SecureChannelManager_close` takes away the current token of exactly the
-- channel with the id, and keeps those of all others; it returns GOOD if there was such a channel
-- and BADINTERNALERROR if not.
pub close_channel-token :
    (id : ℕ) (w : World)
    → IsValid w.manager
    → ((other : ℕ)
        → current_token other (close_channel id w).1
          ≡ (if other == id then none else current_token other w))
      × ((close_channel id w).0
          ≡ elim (get_channel id w) [ none ↦ bad_internal_error | some _ ↦ good ])
unfolding close_channel get_channel
close_channel-token id w v = elim (Option-cases (with_id id w.manager.channels)) [
  | inl e ↦ (λ other. rw (e, close_channel) (ground (arith, e)), rw (e, close_channel))
  | inr (ch, e) ↦ (
    λ other.
        rw (e, close_channel)
          (drop_channel-token other ch w
            ∙ token_of-remove id other w.manager.channels v.listed.places v.listed.ids e),
    rw (e, close_channel),
  )
]
