-- ===== src/World/Setup.antt =====
-- What sets the ideal world at once: the start of a host as an envoy, and a change of the
-- configuration by the editor (collab_mode/src/server.rs).
use collab_mode.Prelude.{ℕ, false, List, [], Text, codes}
use collab_mode.World.{ssh_stdio, RemoteStatus, initial_retry_stride_secs, set_remote_connecting2}
use collab_mode.World.Fix.{Connections, Handled, set_insert}
use collab_mode.World.Events.{declare_remote}

-- `init_for_envoy` with the host that starts the envoy, where its projects are accepted: it is
-- trusted, declared, and taken for a connection in its second stage.
unfoldable pub init_for_envoy : ℕ → ℕ → ℕ → Text → Connections → Handled
unfolding set_remote_connecting2
init_for_envoy now ideal_id new_id host s =
    let envoy_transport = ssh_stdio (codes "N/A") [] [] in
    let ideal =
      declare_remote host
        (record {
          transport = envoy_transport;
          status = RemoteStatus.connected;
          ever_connected = false;
          retry_stride_secs = initial_retry_stride_secs;
          connection_id = ideal_id;
        })
        (record (s.ideal_world) { trusted = set_insert host s.ideal_world.trusted }) in
    (
      [],
      record s {
        ideal_world = ideal;
        current_world = (set_remote_connecting2 now new_id host envoy_transport s.current_world).1;
      },
    )

-- What the request `UpdateConfig` does to the connections: its trusted hosts replace those that
-- are declared.
unfoldable pub handle_update_config : List Text → Connections → Handled
handle_update_config trusted s =
    ([], record s { ideal_world = record (s.ideal_world) { trusted = trusted } })
