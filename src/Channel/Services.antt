-- ===== src/Channel/Services.antt =====
-- src/server/ua_services_securechannel.c, and the end of the secure channel manager.
use opc_ua.Common.{ℕ, Bool, if◌then◌else◌, Option, List, [], ◌∷◌}
use opc_ua.Channel.State.{Channel, World, set_channels}
use opc_ua.Channel.Links.{delete_members_cleanup}
use opc_ua.Channel.Manager.{
  OpenRequest, OpenResponse, open_secure_channel, renew_secure_channel, close_channel,
}

-- `Service_OpenSecureChannel`; `issue` is the test of the type of the request
unfoldable pub open_channel_service :
    ℕ → Option ℕ → ℕ → Bool → OpenRequest → World → ℕ × Option OpenResponse × World
unfolding open_secure_channel renew_secure_channel
open_channel_service now memory conn issue request w =
    if issue
    then open_secure_channel now memory conn request w
    else renew_secure_channel now conn request w

-- `Service_CloseSecureChannel`
unfoldable pub close_channel_service : ℕ → World → World
unfolding close_channel
close_channel_service id w = (close_channel id w).1

-- The loop of `UA_SecureChannelManager_deleteMembers`.
unfoldable pub delete_channels : List Channel → World → World
unfolding delete_members_cleanup
delete_channels [] w = w
delete_channels (c ∷ cs) w = delete_channels cs (delete_members_cleanup c (set_channels cs w))

-- `UA_SecureChannelManager_deleteMembers`
unfoldable pub delete_manager_members : World → World
unfolding delete_channels
delete_manager_members w = delete_channels w.manager.channels w
