-- ===== src/Channel/Renewal.antt =====
-- Renewed tokens in src/server/ua_securechannel_manager.c, and a second channel on a connection
-- that has one.
use opc_ua.Common.{
  ℕ, ◌+◌, ◌^◌, ◌<◌, ◌≡◌, ◌≢◌, refl, sym, ap, ◌∙◌, arith, subst, Option-cases, inl, inr, none, some,
  List, [], ◌∷◌,
}
use opc_ua.Status.{good}
use opc_ua.Channel.State.{
  Token, Channel, Manager, World, modify, remove, at_address, with_id, init_channel,
}
use opc_ua.Channel.Links.{
  attach_secure_channel, detach_secure_channel, forget_sessions, disconnect, close_connection,
  delete_members_cleanup,
}
use opc_ua.Channel.Manager.{
  OpenRequest, OpenResponse, open_channel, channel_of, renew_channel, renew_token, open_allocated,
  get_channel, renew_secure_channel, drop_channel, close_channel,
}

at_address-modify :
    (a : ℕ) (f : Channel → Channel) (cs : List Channel) {c : Channel}
    → ((d : Channel) → (f d).address ≡ d.address)
    → at_address a cs ≡ some c
    → at_address a (modify a f cs) ≡ some (f c)
unfolding at_address modify
at_address-modify a f [] same h = cc
at_address-modify a f (d ∷ cs) {c} same h =
    let rest = λ (e : at_address a cs ≡ some c). at_address-modify a f cs same e in
    ground (arith, same d, rest)

-- The channel that a successful renewal was about.
renew_inversion :
    (now conn : ℕ) (request : OpenRequest) (w : World) (response : OpenResponse) (w' : World)
    → renew_secure_channel now conn request w ≡ (good, some response, w')
    → (ch : Channel) × (channel_of conn w ≡ some ch)
      × (response ≡ (renew_channel now request ch w).0)
      × (w' ≡ (renew_channel now request ch w).1)
unfolding renew_secure_channel
renew_inversion now conn request w response w' h = elim (Option-cases (channel_of conn w)) [
  | inl e ↦ cc (rw (e, renew_secure_channel) at h)
  | inr (ch, e) ↦ let equal = rw (e, renew_secure_channel) at h in (ch, e, cc equal, cc equal)
]

-- What a channel is after a renewal.
abbrev renewed : ℕ → OpenRequest → Manager → Channel → Channel
renewed now request cm ch = record ch {
  next_security_token = renew_token now request cm ch;
  client_nonce = request.client_nonce;
}

at_address-address :
    (a : ℕ) (cs : List Channel) {c : Channel} → at_address a cs ≡ some c → c.address ≡ a
unfolding at_address
at_address-address a [] h = cc
at_address-address a (d ∷ cs) {c} h = ground (arith, at_address-address a cs {c = c})

channel_of-renew_channel :
    (now conn : ℕ) (request : OpenRequest) (w : World) (ch : Channel)
    → channel_of conn w ≡ some ch
    → channel_of conn (renew_channel now request ch w).1 ≡ some (renewed now request w.manager ch)
unfolding channel_of renew_channel
channel_of-renew_channel now conn request w ch h = elim (Option-cases (w.connection_channel conn)) [
  | inl e ↦ cc (rw (e, channel_of) at h)
  | inr (a, e) ↦
      let found : at_address a w.manager.channels ≡ some ch = rw (e, channel_of) at h in
      let here : at_address ch.address w.manager.channels ≡ some ch =
        cc (at_address-address a w.manager.channels found, found) in
      rw (e, channel_of)
        (subst
          (λ k.
            at_address k (renew_channel now request ch w).1.manager.channels
            ≡ some (renewed now request w.manager ch))
          (at_address-address a w.manager.channels found)
          (at_address-modify ch.address _ w.manager.channels (λ d. refl) here))
]

renewed_again :
    (now : ℕ) (request : OpenRequest) (ch : Channel) (w : World)
    → ch.next_security_token.token_id ≢ 0
    → ((renew_channel now request ch w).0.security_token ≡ ch.next_security_token)
      × ((renew_channel now request ch w).1.manager.last_token_id ≡ w.manager.last_token_id)
unfolding renew_channel renew_token
renewed_again now request ch w h = ground arith

-- Until the tokens are revolved a second renewal issues no new token: it answers with the one that
-- is waiting, if its id is not 0, and uses up no id. In between only the first renewal happened.
pub renew_secure_channel-again :
    (now later conn : ℕ) (request second : OpenRequest) (w w' w'' : World)
    (response answer : OpenResponse)
    → renew_secure_channel now conn request w ≡ (good, some response, w')
    → response.security_token.token_id ≢ 0
    → renew_secure_channel later conn second w' ≡ (good, some answer, w'')
    → (answer.security_token ≡ response.security_token)
      × (w''.manager.last_token_id ≡ w'.manager.last_token_id)
unfolding renew_channel
renew_secure_channel-again now later conn request second w w' w'' response answer first issued
      again =
    let (ch, at, r, s) = renew_inversion now conn request w response w' first in
    let (ch', at', r', s') = renew_inversion later conn second w' answer w'' again in
    let same : ch' ≡ renewed now request w.manager ch =
      cc (channel_of-renew_channel now conn request w ch at, s, at') in
    let waiting : ch'.next_security_token ≡ response.security_token =
      ap (λ (c : Channel). c.next_security_token) same
      ∙ sym (ap (λ (x : OpenResponse). x.security_token) r) in
    let kept =
      renewed_again later second ch' w'
        (subst (λ (t : Token). t.token_id ≢ 0) (sym waiting) issued) in
    (
      ap (λ (x : OpenResponse). x.security_token) r' ∙ kept.0 ∙ waiting,
      ap (λ (v : World). v.manager.last_token_id) s' ∙ kept.1,
    )

-- A second `UA_SecureChannelManager_open` on a connection leaves the first channel linked to it:
-- when the first channel is closed then, the second one is found as before, but it has lost its
-- connection, the connection its channel, and the connection is closed.
pub close_channel-other :
    (now later a b conn : ℕ) (request second : OpenRequest) (w : World)
    → a ≢ b
    → w.manager.last_channel_id + 1 < 2 ^ 32
    → let one = open_allocated now a conn request w in
      let two = open_allocated later b conn second one.1 in
      let w' = (close_channel one.0.security_token.channel_id two.1).1 in
      (c : Channel) × (get_channel two.0.security_token.channel_id w' ≡ some c)
      × (c.security_token ≡ two.0.security_token)
      × (c.connection ≡ none)
      × (w'.connection_channel conn ≡ none)
      × (w'.closed ≡ conn ∷ w.closed)
unfolding open_allocated open_channel init_channel attach_secure_channel get_channel close_channel
    drop_channel delete_members_cleanup close_connection detach_secure_channel forget_sessions
    disconnect with_id remove modify
close_channel-other now later a b conn request second w differ room = (
  record (open_channel b later second (open_allocated now a conn request w).1.manager) {
    connection = none;
  },
  ground arith,
  ground arith,
  ground arith,
  ground arith,
  ground arith,
)
