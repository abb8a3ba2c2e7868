-- ===== src/Channel/Tests.antt =====
-- Runs of the secure channel manager, and the theorems at them.
use opc_ua.Common.{ℕ, ◌≡◌, refl, arith, true, false, none, some, [], ◌∷◌, if◌then◌else◌, ◌==◌}
use opc_ua.Status.{good, bad_internal_error, bad_out_of_memory}
use opc_ua.Channel.State.{Token, Channel, World, modify, remove, at_address, with_id, init_channel}
use opc_ua.Channel.Links.{
  forget_sessions, disconnect, close_connection, detach_secure_channel, delete_members_cleanup,
  attach_secure_channel, revolve_tokens,
}
use opc_ua.Channel.Manager.{
  OpenRequest, OpenResponse, init_manager, revise_lifetime, open_channel, open_allocated,
  open_secure_channel, renew_token, renew_channel, channel_of, renew_secure_channel, get_channel,
  drop_channel, close_channel, timed_out, cleanup_entry, cleanup_loop, cleanup_timed_out, addresses,
}
use opc_ua.Channel.Services.{
  open_channel_service, close_channel_service, delete_channels, delete_manager_members,
}
use opc_ua.Channel.Invariant.{IsValid}
use opc_ua.Channel.Lifecycle.{open_secure_channel-IsValid, cleanup_timed_out-IsValid}
use opc_ua.Channel.Tokens.{current_token, Grants, open_secure_channel-Grants, close_channel-token}
use opc_ua.Channel.Renewal.{close_channel-other}

program : Unit {0}
unfolding modify remove at_address with_id init_channel forget_sessions disconnect close_connection
    detach_secure_channel delete_members_cleanup attach_secure_channel revolve_tokens init_manager
    revise_lifetime open_channel open_allocated open_secure_channel renew_token renew_channel
    channel_of renew_secure_channel get_channel drop_channel close_channel timed_out cleanup_entry
    cleanup_loop cleanup_timed_out addresses open_channel_service close_channel_service
    delete_channels delete_manager_members
program = tt

abbrev start : World
unfolding program
start = record {
  manager = init_manager 2 1000 1 7;
  connection_channel = λ _. none;
  session_channel = λ _. none;
  closed = [];
}

abbrev asking : OpenRequest
asking = record { security_mode_none = true; requested_lifetime = 600; client_nonce = 5 ∷ [] }

abbrev one : World
unfolding program
one = (open_secure_channel 10 (some 100) 3 asking start).2

abbrev two : World
unfolding program
two = (open_secure_channel 20 (some 200) 4 asking one).2

open_third : (open_secure_channel 30 (some 300) 5 asking two).0 ≡ bad_out_of_memory
unfolding program
open_third = refl

-- At time 6_000_015 the first channel has timed out, and the second has not.
cleanup_first : (cleanup_timed_out 6_000_015 two).manager.current_channel_count ≡ 1
unfolding program
cleanup_first = refl

start-IsValid : IsValid start.manager
unfolding program
start-IsValid = record {
  counted = refl;
  limited = omega arith;
  sized = omega arith;
  listed = record { channels = tt; ids = tt; places = tt };
}

one-IsValid : IsValid (open_secure_channel 10 (some 100) 3 asking start).2.manager
unfolding program
one-IsValid =
    open_secure_channel-IsValid 10 (some 100) 3 asking start (λ a e. tt) (omega arith) start-IsValid

cleanup_timed_out-IsValid_example :
    IsValid
      (cleanup_timed_out 6_000_015 (open_secure_channel 10 (some 100) 3 asking start).2).manager
cleanup_timed_out-IsValid_example =
    cleanup_timed_out-IsValid 6_000_015 (open_secure_channel 10 (some 100) 3 asking start).2
      one-IsValid

open_secure_channel-Grants_example :
    Grants 3 asking start
      (record {
        server_nonce = 0x61 ∷ [];
        security_token = record {
          channel_id = 1;
          token_id = 7;
          created_at = 10;
          revised_lifetime = 600;
        };
      })
      (open_secure_channel 10 (some 100) 3 asking start).2
open_secure_channel-Grants_example =
    open_secure_channel-Grants 10 (some 100) 3 asking start
      (record {
        server_nonce = 0x61 ∷ [];
        security_token = record {
          channel_id = 1;
          token_id = 7;
          created_at = 10;
          revised_lifetime = 600;
        };
      })
      (open_secure_channel 10 (some 100) 3 asking start).2 (unfold program in refl)

-- The second channel on the manager.
open_secure_channel-IsValid_example :
    IsValid
      (open_secure_channel 20
        (some 200)
        4
        asking
        (open_secure_channel 10 (some 100) 3 asking start).2).2.manager
unfolding program
open_secure_channel-IsValid_example =
    open_secure_channel-IsValid 20 (some 200) 4 asking
      (open_secure_channel 10 (some 100) 3 asking start).2 (λ a e. (λ q. ground arith, tt))
      (omega arith) one-IsValid

close_channel-token_example :
    let w = (open_secure_channel 10 (some 100) 3 asking start).2 in
    ((other : ℕ)
      → current_token other (close_channel 1 w).1
        ≡ (if other == 1 then none else current_token other w))
    × ((close_channel 1 w).0 ≡ elim (get_channel 1 w) [ none ↦ bad_internal_error | some _ ↦ good ])
close_channel-token_example =
    close_channel-token 1 (open_secure_channel 10 (some 100) 3 asking start).2 one-IsValid

abbrev next_token : Token
next_token = record { channel_id = 1; token_id = 8; created_at = 50; revised_lifetime = 600 }

abbrev renewed_response : OpenResponse
renewed_response = record { server_nonce = 0x61 ∷ []; security_token = next_token }

abbrev renewed_world : World
unfolding program
renewed_world = (renew_secure_channel 50 3 asking one).2

abbrev twice_world : World
unfolding program
twice_world = (renew_secure_channel 60 3 asking renewed_world).2

close_channel-other_example :
    let one = open_allocated 10 100 3 asking start in
    let two = open_allocated 20 200 3 asking one.1 in
    let w' = (close_channel one.0.security_token.channel_id two.1).1 in
    (c : Channel) × (get_channel two.0.security_token.channel_id w' ≡ some c)
    × (c.security_token ≡ two.0.security_token)
    × (c.connection ≡ none)
    × (w'.connection_channel 3 ≡ none)
    × (w'.closed ≡ 3 ∷ start.closed)
unfolding program
close_channel-other_example =
    close_channel-other 10 20 100 200 3 asking asking start (omega arith) (omega arith)

-- A request that is not for a new channel renews the one of the connection.
service_renews : (open_channel_service 50 none 3 false asking one).2.manager.last_token_id ≡ 9
unfolding program
service_renews = refl

service_closes : (close_channel_service 1 one).closed ≡ 3 ∷ []
unfolding program
service_closes = refl

delete_both : (delete_manager_members two).manager.channels ≡ []
unfolding program
delete_both = refl
