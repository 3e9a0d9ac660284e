-- ===== src/Tests/Signals.antt =====
-- The theorems on the signaling server at concrete inputs.

use collab_mode.Prelude.{ℕ, ◌≡◌, refl, Bool, true, none, some, All, List, [], ◌∷◌, Text, codes}
use collab_mode.Map.{nat_eq, text_eq, text_beq, lookup}
use collab_mode.Types.Ids.{id_hash, find}
use collab_mode.Signaling.{SignalingMsg, connect_msg}
use collab_mode.Signaling.Server.{
  EndpointInfo, Hub, text_frame, close_frame, received_msg, handle_message, unsupported_reason,
  begin_connection, end_connection,
}
use collab_mode.Signaling.Server.Relay.{Permitted, handle_text-Permitted}
use collab_mode.Signaling.Server.Rebind.{end_connection-unbinds}
use collab_mode.World.Fix.{permission_denied, send}
use collab_mode.World.Events.{
  handle_signaling_msg, handle_signaling_connect_msg, is_connecting_or_connected, is_cert_trusted,
}
use collab_mode.World.Answered.{Refuses, failed_entry, accepts, refuse-closes, relay-unnoticed}
use collab_mode.Tests.Worlds.{addr, bob, carol, env_at, waiting, home}

abbrev alice : Text
alice = codes "alice::EF"

abbrev up : ℕ → Bool
up channel = true

-- `bob` is bound and trusts `alice`.
abbrev endpoints : List (Text × EndpointInfo)
endpoints =
    (bob, record { msg_tx = 2; trusted = alice ∷ [] })
    ∷ (alice, record { msg_tx = 1; trusted = bob ∷ [] })
    ∷ []

handle_text-Permitted_example :
    All
      (Permitted 1 alice endpoints (connect_msg alice bob true))
      ((2, text_frame (connect_msg alice bob true)) ∷ [])
unfolding handle_message lookup text_beq
handle_text-Permitted_example =
    handle_text-Permitted up 7 1 alice 5 endpoints (connect_msg alice bob true)

abbrev empty_hub : Hub
empty_hub = record { endpoint_map = []; connections = [] }

abbrev rebound : Hub
rebound = begin_connection 9 2 bob [] (begin_connection 4 1 bob [] empty_hub)

end_connection-unbinds_example :
    (lookup bob rebound.endpoint_map ≡ some (record { msg_tx = 2; trusted = [] }))
    × (lookup bob (end_connection 1 rebound).endpoint_map ≡ none)
    × (lookup 2 (end_connection 1 rebound).connections
        ≡ some (record { endpoint_id = some bob; last_ping = 9 }))
end_connection-unbinds_example = end_connection-unbinds 1 2 4 9 bob [] [] empty_hub refl refl

refuse-closes_example :
    (msg : SignalingMsg) × ((handle_signaling_connect_msg (env_at 9) 4 addr carol true waiting).0
      ≡ permission_denied carol ∷ send addr msg ∷ [])
    × ((handle_message up 7 1 (some alice) 5 endpoints (received_msg msg)).out
        ≡ (1, close_frame (some unsupported_reason)) ∷ [])
unfolding is_connecting_or_connected is_cert_trusted id_hash find lookup text_beq
refuse-closes_example =
    refuse-closes up 7 1 5 endpoints (env_at 9) 4 addr carol waiting true refl refl refl

relay-unnoticed_example :
    (answer : SignalingMsg) × (reason why : Text) × Refuses alice reason answer
    × ((handle_message up 7 1
          (some alice)
          5
          endpoints
          (received_msg (connect_msg alice carol true))).out
        ≡ (1, text_frame answer) ∷ [])
    × (lookup alice (handle_signaling_msg (env_at 9) 4 addr answer home).1.current_world.remotes
        ≡ failed_entry why (lookup alice home.current_world.remotes))
    × (lookup carol (handle_signaling_msg (env_at 9) 4 addr answer home).1.current_world.remotes
        ≡ lookup carol home.current_world.remotes)
unfolding accepts lookup text_beq
relay-unnoticed_example =
    relay-unnoticed up 7 1 5 endpoints (env_at 9) 4 addr carol home true refl refl refl
