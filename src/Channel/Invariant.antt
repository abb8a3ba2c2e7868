-- ===== src/Channel/Invariant.antt =====
-- What the secure channel manager of src/server/ua_securechannel_manager.c keeps.
use opc_ua.Common.{
  ℕ, ◌^◌, ◌<◌, ◌≤◌, ◌≡◌, ◌≢◌, refl, arith, Option, none, some, List, [], ◌∷◌, length, All,
}
use opc_ua.Channel.State.{Channel, Manager, World, modify, remove, at_address, set_channels}
use opc_ua.Channel.Links.{
  detach_secure_channel, forget_sessions, disconnect, close_connection, delete_members_cleanup,
}
use opc_ua.Channel.Lists.{
  Distinct, All-remove, All-modify, Distinct-remove, Distinct-modify, length-remove, length-modify,
}
use opc_ua.Channel.Manager.{drop_channel}

-- An id that was handed out, and a waiting token that is for the same channel.
pub record IsChannel (last_id : ℕ) (c : Channel) : Type 0 where
  pub issued : c.security_token.channel_id < last_id
  pub waiting :
      c.next_security_token.token_id ≢ 0
      → c.next_security_token.channel_id ≡ c.security_token.channel_id

abbrev pub channel_id : Channel → ℕ
channel_id c = c.security_token.channel_id

abbrev pub address : Channel → ℕ
address c = c.address

-- The list of channels, for ids below `last_id`.
pub record IsList (last_id : ℕ) (cs : List Channel) : Type 0 where
  pub channels : All (IsChannel last_id) cs
  pub ids : Distinct channel_id cs
  pub places : Distinct address cs

-- The count is that of the list and within its limit; ids and addresses are distinct.
pub record IsValid (m : Manager) : Type 0 where
  pub counted : m.current_channel_count ≡ length m.channels
  pub limited : m.current_channel_count ≤ m.max_channel_count
  pub sized : m.max_channel_count < 2 ^ 64
  pub listed : IsList m.last_channel_id m.channels

-- A write that keeps the address and, of a channel in order, the id and the order.
module _ (last_id a : ℕ) (f : Channel → Channel)
    (same_address : (c : Channel) → (f c).address ≡ c.address)
    (same_id : (c : Channel) → IsChannel last_id c → channel_id (f c) ≡ channel_id c)
    (keep : (c : Channel) → IsChannel last_id c → IsChannel last_id (f c)) where
  pub IsList-modify : (cs : List Channel) → IsList last_id cs → IsList last_id (modify a f cs)
  IsList-modify cs h = record {
    channels = All-modify (IsChannel last_id) a f keep cs h.channels;
    ids = Distinct-modify channel_id (IsChannel last_id) a f same_id cs h.channels h.ids;
    places =
        Distinct-modify address (IsChannel last_id) a f (λ c _. same_address c) cs h.channels
          h.places;
  }

IsList-remove :
    (last_id a : ℕ) (cs : List Channel) → IsList last_id cs → IsList last_id (remove a cs)
IsList-remove last_id a cs h = record {
  channels = All-remove (IsChannel last_id) a cs h.channels;
  ids = Distinct-remove channel_id a cs h.ids;
  places = Distinct-remove address a cs h.places;
}

pub IsList-disconnect :
    (last_id a : ℕ) (cs : List Channel)
    → IsList last_id cs
    → IsList last_id (modify a (λ c. record c { connection = none }) cs)
IsList-disconnect last_id a cs h =
    IsList-modify last_id a (λ c. record c { connection = none }) (λ c. refl) (λ c _. refl)
      (λ c p. record { issued = p.issued; waiting = p.waiting }) cs h

-- The channels stay in order, as many, and the rest of the manager is as before.
pub record Keeps (m m' : Manager) : Type 0 where
  pub listed : (last_id : ℕ) → IsList last_id m.channels → IsList last_id m'.channels
  pub as_many : length m'.channels ≡ length m.channels
  pub count : m'.current_channel_count ≡ m.current_channel_count
  pub limit : m'.max_channel_count ≡ m.max_channel_count
  pub last_id : m'.last_channel_id ≡ m.last_channel_id

forget_sessions-manager : (ss : List ℕ) (w : World) → (forget_sessions ss w).manager ≡ w.manager
unfolding forget_sessions
forget_sessions-manager [] w = refl
forget_sessions-manager (s ∷ ss) w = forget_sessions-manager ss _

Keeps-refl : (m : Manager) → Keeps m m
Keeps-refl m = record {
  listed = λ _ h. h;
  as_many = refl;
  count = refl;
  limit = refl;
  last_id = refl;
}

disconnect-Keeps : (o : Option ℕ) (w : World) → Keeps w.manager (disconnect o w).manager
unfolding disconnect
disconnect-Keeps none w = Keeps-refl w.manager
disconnect-Keeps (some a) w = record {
  listed = λ n h. IsList-disconnect n a w.manager.channels h;
  as_many = length-modify a _ w.manager.channels;
  count = refl;
  limit = refl;
  last_id = refl;
}

close_connection-Keeps : (o : Option ℕ) (w : World) → Keeps w.manager (close_connection o w).manager
unfolding close_connection detach_secure_channel
close_connection-Keeps none w = Keeps-refl w.manager
close_connection-Keeps (some c) w = disconnect-Keeps (w.connection_channel c) w

delete_members_cleanup-Keeps :
    (ch : Channel) (w : World) → Keeps w.manager (delete_members_cleanup ch w).manager
unfolding delete_members_cleanup
delete_members_cleanup-Keeps ch w =
    rw forget_sessions-manager (close_connection-Keeps ch.connection w)

-- Taking a channel of the list off keeps the invariant, and the count follows.
pub drop_channel-IsValid :
    (ch : Channel) (w : World)
    → at_address ch.address w.manager.channels ≡ some ch
    → IsValid w.manager
    → IsValid (drop_channel ch w).manager
unfolding drop_channel
drop_channel-IsValid ch w found v =
    let cs = w.manager.channels in
    let k = delete_members_cleanup-Keeps ch (set_channels (remove ch.address cs) w) in
    let shorter = length-remove ch.address cs found in
    record {
      counted = omega (arith, k.as_many, k.count, shorter, v.counted, v.limited, v.sized);
      limited = omega (arith, k.count, k.limit, shorter, v.counted, v.limited, v.sized);
      sized = omega (arith, k.limit, v.sized);
      listed = rw (k.last_id) (
          k.listed w.manager.last_channel_id
            (IsList-remove w.manager.last_channel_id ch.address cs v.listed));
    }
