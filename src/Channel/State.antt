-- ===== src/Channel/State.antt =====
-- The memory that the channel code shares. A pointer to a channel, a connection or a session is a
-- number; the channels stand in the manager's list, and of the connections and the sessions only
-- their `channel` pointers are kept.
use opc_ua.Common.{ℕ, ◌==◌, if◌then◌else◌, Option, none, some, List, [], ◌∷◌}

-- `UA_ChannelSecurityToken`
pub record Token : Type 0 where
  pub channel_id : ℕ
  pub token_id : ℕ
  pub created_at : ℕ
  pub revised_lifetime : ℕ

pub record Channel : Type 0 where
  pub address : ℕ
  pub security_token : Token
  pub next_security_token : Token
  pub client_nonce : List ℕ
  pub server_nonce : List ℕ
  pub sequence_number : ℕ
  pub connection : Option ℕ
  pub sessions : List ℕ

-- `UA_SecureChannelManager`
pub record Manager : Type 0 where
  pub channels : List Channel
  pub max_channel_count : ℕ
  pub current_channel_count : ℕ
  pub max_channel_lifetime : ℕ
  pub last_channel_id : ℕ
  pub last_token_id : ℕ

-- `closed` are the connections whose `close` was called, the last one first.
pub record World : Type 0 where
  pub manager : Manager
  pub connection_channel : ℕ → Option ℕ
  pub session_channel : ℕ → Option ℕ
  pub closed : List ℕ

abbrev pub update : (ℕ → Option ℕ) → ℕ → Option ℕ → ℕ → Option ℕ
update f k v j = if j == k then v else f j

-- The write through a pointer to a channel.
unfoldable pub modify : ℕ → (Channel → Channel) → List Channel → List Channel
modify a f [] = []
modify a f (c ∷ cs) = if c.address == a then f c ∷ cs else c ∷ modify a f cs

-- `LIST_REMOVE`
unfoldable pub remove : ℕ → List Channel → List Channel
remove a [] = []
remove a (c ∷ cs) = if c.address == a then cs else c ∷ remove a cs

unfoldable pub at_address : ℕ → List Channel → Option Channel
at_address a [] = none
at_address a (c ∷ cs) = if c.address == a then some c else at_address a cs

-- The first channel with the id.
unfoldable pub with_id : ℕ → List Channel → Option Channel
with_id id [] = none
with_id id (c ∷ cs) = if c.security_token.channel_id == id then some c else with_id id cs

abbrev pub zero_token : Token
zero_token = record { channel_id = 0; token_id = 0; created_at = 0; revised_lifetime = 0 }

-- `UA_SecureChannel_init`
unfoldable pub init_channel : ℕ → Channel
init_channel a = record {
  address = a;
  security_token = zero_token;
  next_security_token = zero_token;
  client_nonce = [];
  server_nonce = [];
  sequence_number = 0;
  connection = none;
  sessions = [];
}

abbrev pub set_channels : List Channel → World → World
set_channels cs w = record w { manager = record (w.manager) { channels = cs } }

abbrev pub modify_channel : ℕ → (Channel → Channel) → World → World
modify_channel a f w = set_channels (modify a f w.manager.channels) w
