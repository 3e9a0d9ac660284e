-- ===== src/World/Fix.antt =====
-- `fix_world`: the passes that bring the current connections closer to the declared ones
-- (collab_mode/src/server.rs).
pub mod Remotes
pub mod Timeouts
pub mod Signaling
pub use collab_mode.World.Pass.{
  Connections, Env, Effect, connecting, failed_to_connect, connection_broke, connection_progress,
  accept_stopped, accepting_connection, already_connected, connected, remote_left,
  permission_denied, network_error, signaling_error, bind_failed, stopped_accepting, self_failed,
  fix_world_next, save_trusted, disconnect, start_connect_ssh, start_connect_sock, signaling_remove,
  bind, send, Handled, filter_keys, text_contains, set_insert, text_subset,
}
unfoldable pub use collab_mode.World.Pass.{each, pass, followed_by}
pub use collab_mode.World.Fix.Remotes.{send_failed, no_cert, envoy_name_of}
unfoldable pub use collab_mode.World.Fix.Remotes.{
  close_remote, undeclared_remotes, start_now, remotes_to_start, is_bound, send_connect_message,
  try_connect_remote_sctp, try_connect_remote_ssh, dispatch_transport, try_connect_remote, is_ready,
  start_remote, close_remotes, peers_to_start, start_remotes, fix_world_remotes,
}
pub use collab_mode.World.Fix.Timeouts.{waited, ever_of}
unfoldable pub use collab_mode.World.Fix.Timeouts.{
  timed_out, timeouts, give_up, time_out, late_peers, fix_world_timeouts,
}
pub use collab_mode.World.Fix.Signaling.{trusted_of}
unfoldable pub use collab_mode.World.Fix.Signaling.{
  bind_timed_out, fail_binding, close_signaling, bind_now, start_binding, trust_now, send_trust,
  late_bindings, fail_bindings, undeclared_signaling, close_signalings, bindings_to_start,
  start_bindings, trust_to_sync, sync_trust, fix_world_signaling,
}

unfoldable pub fix_world : Env → Connections → Handled
unfolding followed_by fix_world_signaling fix_world_remotes fix_world_timeouts
fix_world env =
    followed_by (fix_world_signaling env)
      (followed_by (fix_world_remotes env) (fix_world_timeouts env))
