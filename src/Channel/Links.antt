-- ===== src/Channel/Links.antt =====
-- The pointers between channels, connections and sessions.
use opc_ua.Common.{ℕ, Bool, true, false, ◌==◌, if◌then◌else◌, Option, none, some, List, [], ◌∷◌}
use opc_ua.Channel.State.{Channel, World, update, modify, modify_channel, zero_token}

-- The channel at a pointer, if it is one, loses its connection.
unfoldable pub disconnect : Option ℕ → World → World
unfolding modify
disconnect none w = w
disconnect (some a) w = modify_channel a (λ ch. record ch { connection = none }) w

-- `UA_Connection_detachSecureChannel`
unfoldable pub detach_secure_channel : ℕ → World → World
unfolding disconnect
detach_secure_channel c w = record (disconnect (w.connection_channel c) w) {
  connection_channel = update w.connection_channel c none;
}

-- `UA_Connection_attachSecureChannel`, at a channel that is not in the list yet
unfoldable pub attach_secure_channel : ℕ → Channel → World → Channel × World
attach_secure_channel c ch w = elim ch.connection [
  | some _ ↦ (ch, w)
  | none ↦ (
    record ch { connection = some c },
    record w { connection_channel = update w.connection_channel c (some ch.address) },
  )
]

-- The sessions lose their pointer to the channel.
unfoldable pub forget_sessions : List ℕ → World → World
forget_sessions [] w = w
forget_sessions (s ∷ ss) w =
    forget_sessions ss (record w { session_channel = update w.session_channel s none })

-- The connection of a channel, if it has one, is detached and closed.
unfoldable pub close_connection : Option ℕ → World → World
unfolding detach_secure_channel
close_connection none w = w
close_connection (some c) w =
    let detached = detach_secure_channel c w in record detached { closed = c ∷ detached.closed }

-- `UA_SecureChannel_deleteMembersCleanup`, at a channel that was taken off the list
unfoldable pub delete_members_cleanup : Channel → World → World
unfolding close_connection forget_sessions
delete_members_cleanup ch w = forget_sessions ch.sessions (close_connection ch.connection w)

-- `UA_SecureChannel_attachSession`; `allocated` says whether `UA_malloc` returned memory
unfoldable pub attach_session : Bool → ℕ → ℕ → World → World
unfolding modify
attach_session false a s w = w
attach_session true a s w = elim (w.session_channel s) [
  | some _ ↦ w
  | none ↦ record (modify_channel a (λ ch. record ch { sessions = s ∷ ch.sessions }) w) {
    session_channel = update w.session_channel s (some a);
  }
]

unfoldable pub remove_entry : ℕ → List ℕ → List ℕ
remove_entry s [] = []
remove_entry s (t ∷ ts) = if t == s then ts else t ∷ remove_entry s ts

-- `UA_SecureChannel_detachSession`
unfoldable pub detach_session : ℕ → ℕ → World → World
unfolding modify remove_entry
detach_session a s w =
    record (modify_channel a (λ ch. record ch { sessions = remove_entry s ch.sessions }) w) {
      session_channel = update w.session_channel s none;
    }

-- `UA_SecureChannel_revolveTokens`
unfoldable pub revolve_tokens : Channel → Channel
revolve_tokens ch =
    if ch.next_security_token.token_id == 0
    then ch
    else record ch { security_token = ch.next_security_token; next_security_token = zero_token }
