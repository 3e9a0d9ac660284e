-- ===== src/World/Fix/Remotes.antt =====
-- `fix_world_remotes`: connections that are not declared any longer are closed, and those that are
-- declared and due are started (collab_mode/src/server.rs).
use collab_mode.Prelude.{
  ℕ, leb, Bool, true, false, not, Option, none, some, List, [], ◌∷◌, ◌++◌, Text, codes,
  if◌then◌else◌,
}
use collab_mode.Map.{text_eq, text_beq, lookup, contains_key}
use collab_mode.Signaling.{connect_msg}
use collab_mode.World.{
  ConfigProject, TransportConfig, sctp, ssh_stdio, SignalingStatus, SignalingState, RemoteStatus,
  RemoteState, WorldState, set_remote_connecting1, set_remote_pending, mark_remote_failed,
  remove_remote,
}
use collab_mode.World.Pass.{
  Connections, Env, connecting, connection_broke, self_failed, disconnect, start_connect_ssh, send,
  Handled, pass, followed_by, filter_keys, set_insert,
}

-- 1. Close entries that are not declared any longer.
unfoldable pub close_remote : Text → Connections → Handled
unfolding remove_remote
close_remote peer s =
    (disconnect peer ∷ [], record s { current_world = remove_remote peer s.current_world })

unfoldable pub undeclared_remotes : Connections → List Text
undeclared_remotes s =
    filter_keys (λ peer _. not (contains_key peer s.ideal_world.remotes)) s.current_world.remotes

-- 2. Whether a connection to a declared peer is started now.
unfoldable pub start_now : ℕ → Option RemoteState → Bool
start_now now none = true
start_now now (some cur) = elim cur.status [
  | RemoteStatus.pending ↦ true
  | RemoteStatus.disconnected next_retry_at _ ↦ leb next_retry_at now
  | _ ↦ false
]

unfoldable pub remotes_to_start :
    ℕ → List (Text × RemoteState) → List (Text × RemoteState) → List (Text × TransportConfig)
unfolding start_now
remotes_to_start now current [] = []
remotes_to_start now current ((peer, ideal) ∷ m) =
    let rest = remotes_to_start now current m in
    if start_now now (lookup peer current) then (peer, ideal.transport) ∷ rest else rest

-- `matches!(…, Some(SignalingStatus::Bound))`
unfoldable pub is_bound : Option SignalingState → Bool
is_bound none = false
is_bound (some s) = elim s.status [ SignalingStatus.bound ↦ true | _ ↦ false ]

abbrev pub send_failed : Text → Text
send_failed e = codes "Failed to send Connect message: " ++ e

unfoldable pub send_connect_message : Env → Text → Text → Bool → Connections → Handled
unfolding mark_remote_failed
send_connect_message env peer addr initiator s =
    let sent = send addr (connect_msg s.host_id peer initiator) in
    elim (env.send_error addr) [
      | none ↦ (sent ∷ [], s)
      | some e ↦ (
        sent ∷ connection_broke peer (send_failed e) ∷ [],
        record s { current_world = mark_remote_failed peer (send_failed e) s.current_world },
      )
    ]

unfoldable pub try_connect_remote_sctp : Env → Text → Text → Connections → Handled
unfolding set_remote_connecting1 send_connect_message
try_connect_remote_sctp env peer addr s =
    let (_, world) =
      set_remote_connecting1 env.now (env.new_id peer) peer (sctp addr) s.current_world in
    let (out, s') = send_connect_message env peer addr true (record s { current_world = world }) in
    (connecting peer ∷ out, s')

abbrev pub no_cert : Text → Text
no_cert e = codes "Failed to generate cert: " ++ e

abbrev pub envoy_name_of : Text → Text
envoy_name_of host_name = host_name ++ codes "-envoy"

unfoldable pub try_connect_remote_ssh :
    Env → Text → Text → List Text → List ConfigProject → Connections → Handled
unfolding set_remote_connecting1 mark_remote_failed
try_connect_remote_ssh env peer ssh_host command projects s =
    let (id, world) =
      set_remote_connecting1 env.now (env.new_id peer) peer (ssh_stdio ssh_host command projects)
        s.current_world in
    let envoy_name = envoy_name_of s.host_name in
    elim (env.cert_hash envoy_name) [
      | none ↦ (
        connecting peer ∷ self_failed envoy_name id ∷ [],
        record s { current_world = mark_remote_failed peer (no_cert env.cert_error) world },
      )
      | some hash ↦
          (let envoy_id = envoy_name ++ codes "::" ++ hash in
            (
              connecting peer ∷ start_connect_ssh envoy_id id ssh_host command projects ∷ [],
              record s {
                current_world = world;
                local_trusted_hosts = set_insert envoy_id s.local_trusted_hosts;
              },
            ))
    ]

unfoldable pub dispatch_transport : Env → Text → TransportConfig → Connections → Handled
unfolding try_connect_remote_sctp try_connect_remote_ssh
dispatch_transport env peer (sctp addr) s = try_connect_remote_sctp env peer addr s
dispatch_transport env peer (ssh_stdio ssh_host command projects) s =
    try_connect_remote_ssh env peer ssh_host command projects s

unfoldable pub try_connect_remote : Env → Text → TransportConfig → Connections → Handled
unfolding dispatch_transport
try_connect_remote env peer transport s =
    if text_beq peer s.host_id then ([], s) else dispatch_transport env peer transport s

-- The signaling server of an SCTP transport is bound.
unfoldable pub is_ready : TransportConfig → WorldState → Bool
unfolding is_bound
is_ready (sctp addr) world = is_bound (lookup addr world.signaling)
is_ready (ssh_stdio _ _ _) world = true

-- The body of the loop over the peers to start.
unfoldable pub start_remote : Env → Text × TransportConfig → Connections → Handled
unfolding is_ready try_connect_remote set_remote_pending
start_remote env (peer, transport) s =
    if is_ready transport s.current_world then try_connect_remote env peer transport s else (
      [],
      record s {
        current_world = set_remote_pending (env.new_id peer) peer transport s.current_world;
      },
    )

unfoldable pub close_remotes : Connections → Handled
unfolding pass close_remote undeclared_remotes
close_remotes = pass undeclared_remotes close_remote

unfoldable pub peers_to_start : Env → Connections → List (Text × TransportConfig)
unfolding remotes_to_start
peers_to_start env s = remotes_to_start env.now s.current_world.remotes s.ideal_world.remotes

unfoldable pub start_remotes : Env → Connections → Handled
unfolding pass peers_to_start start_remote
start_remotes env = pass (peers_to_start env) (start_remote env)

unfoldable pub fix_world_remotes : Env → Connections → Handled
unfolding followed_by close_remotes start_remotes
fix_world_remotes env = followed_by close_remotes (start_remotes env)
