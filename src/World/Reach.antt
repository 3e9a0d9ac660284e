-- ===== src/World/Reach.antt =====
-- All events of the connections, in any order.
use collab_mode.Prelude.{
  ℕ, ◌≡◌, inl, inr, Bool, true, false, Bool-cases, Option-cases, List, [], ◌∷◌, Text, codes,
}
use collab_mode.Map.{text_eq, text_beq, lookup}
use collab_mode.World.{TransportConfig, sctp, ssh_stdio, empty_world, is_stale_connection_attempt}
use collab_mode.World.Fix.{
  Connections, Env, Handled, peers_to_start, late_peers, late_bindings, undeclared_signaling,
  bindings_to_start, trust_to_sync, close_remotes, start_remotes, fail_bindings, close_signalings,
  start_bindings, sync_trust, close_remote, undeclared_remotes, start_remote, is_ready, time_out,
  send_connect_message, try_connect_remote, try_connect_remote_sctp, try_connect_remote_ssh,
  dispatch_transport, fail_binding, close_signaling, start_binding, send_trust, followed_by,
  fix_world, fix_world_signaling, fix_world_remotes, fix_world_timeouts, envoy_name_of,
}
use collab_mode.World.Keeps.{Keeps, pass-Keeps, followed_by-Keeps}
use collab_mode.Signaling.{
  SignalingMsg, bound_msg, connect_msg, sdp_msg, candidate_msg, trust_msg, trusted_msg,
  id_not_found_msg, rejected_msg, ping_msg, pong_msg, terminate_msg,
}
use collab_mode.World.Events.{
  handle_accept_stopped, handle_signaling_msg, handle_signaling_bound_msg,
  handle_signaling_connect_msg, admit, refuse, reset_failed, bind_inline,
  is_connecting_or_connected, is_cert_trusted, handle_failed_to_connect, handle_connection_broke,
  lose_connection, handle_hey, handle_bye, handle_connect, handle_stop_accepting,
  handle_accept_connection, is_bound_status, is_binding_status,
}
use collab_mode.World.Setup.{init_for_envoy, handle_update_config}
use collab_mode.Types.Ids.{id_hash}
use collab_mode.World.Invariant.{
  Sane, connecting1-Sane, connecting2-Sane, pending-Sane, failed-Sane, connected-Sane, give_up-Sane,
  remove_remote-Sane, updated-Sane, reset_failed-Sane, binding-Sane, bound-Sane,
  signaling_failed-Sane, signaling_disconnected-Sane, remove_signaling-Sane, confirmed-Sane,
  trust_sent-Sane,
}

-- What the main loop of `Server::run` takes up, as far as it concerns the connections: the passes
-- at every tick, messages, notifications and the request `UpdateConfig`; and the start as an envoy,
-- before it.
pub data Event : Type 0 where
  tick : Env → Event
  failed_to_connect_msg : ℕ → Text → Text → ℕ → Event
  connection_broke_msg : ℕ → Text → ℕ → Event
  hey_msg : Text → Event
  bye_msg : Text → Event
  from_signaling : Env → ℕ → Text → SignalingMsg → Event
  accept_stopped_msg : ℕ → Text → Event
  connect_notif : ℕ → Text → TransportConfig → Event
  stop_accepting_notif : Text → Event
  accept_connection_notif : Env → Text → Event
  start_as_envoy : ℕ → ℕ → ℕ → Text → Event
  update_config_request : List Text → Event

unfoldable pub handle : Event → Connections → Handled
unfolding fix_world handle_failed_to_connect handle_connection_broke handle_hey handle_bye
    handle_signaling_msg handle_accept_stopped handle_connect handle_stop_accepting
    handle_accept_connection init_for_envoy handle_update_config
handle (tick env) s = fix_world env s
handle (failed_to_connect_msg now peer reason id) s = handle_failed_to_connect now peer reason id s
handle (connection_broke_msg now peer id) s = handle_connection_broke now peer id s
handle (hey_msg host) s = handle_hey host s
handle (bye_msg host) s = handle_bye host s
handle (from_signaling env ideal_id addr msg) s = handle_signaling_msg env ideal_id addr msg s
handle (accept_stopped_msg now addr) s = handle_accept_stopped now addr s
handle (connect_notif new_id peer transport) s = handle_connect new_id peer transport s
handle (stop_accepting_notif addr) s = handle_stop_accepting addr s
handle (accept_connection_notif env addr) s = handle_accept_connection env addr s
handle (start_as_envoy now ideal_id new_id host) s = init_for_envoy now ideal_id new_id host s
handle (update_config_request trusted) s = handle_update_config trusted s

unfoldable pub run : List Event → Connections → Connections
unfolding handle
run [] s = s
run (e ∷ es) s = run es (handle e s).1

abbrev IsSane : Connections → Type 0
IsSane s = Sane s.current_world

module _ (env : Env) where
  send_connect_message-IsSane :
      (peer addr : Text) (initiator : Bool) (s : Connections)
      → IsSane s
      → IsSane (send_connect_message env peer addr initiator s).1
  unfolding send_connect_message
  send_connect_message-IsSane peer addr initiator s ok = elim (Option-cases (env.send_error addr)) [
    | inl sent ↦ rw (sent, send_connect_message) ok
    | inr (e, failed) ↦ rw (failed, send_connect_message) (failed-Sane peer _ s.current_world ok)
  ]

  dispatch_transport-IsSane :
      (peer : Text) (t : TransportConfig) (s : Connections)
      → IsSane s
      → IsSane (dispatch_transport env peer t s).1
  unfolding dispatch_transport try_connect_remote_sctp try_connect_remote_ssh
  dispatch_transport-IsSane peer (sctp addr) s ok =
      send_connect_message-IsSane peer addr true _
        (connecting1-Sane env.now (env.new_id peer) peer (sctp addr) s.current_world ok)
  dispatch_transport-IsSane peer (ssh_stdio ssh_host command projects) s ok =
      let new =
        connecting1-Sane env.now (env.new_id peer) peer (ssh_stdio ssh_host command projects)
          s.current_world ok in
      elim (Option-cases (env.cert_hash (envoy_name_of s.host_name))) [
        | inl bad ↦ rw (bad, try_connect_remote_ssh) (failed-Sane peer _ _ new)
        | inr (hash, good) ↦ rw (good, try_connect_remote_ssh) new
      ]

  start_remote-IsSane :
      (p : Text × TransportConfig) (s : Connections) → IsSane s → IsSane (start_remote env p s).1
  unfolding start_remote try_connect_remote
  start_remote-IsSane (peer, t) s ok = elim (Bool-cases (is_ready t s.current_world)) [
    | inl ready ↦ elim (Bool-cases (text_beq peer s.host_id)) [
      | inl own ↦ rw ready (rw own ok)
      | inr other ↦ rw ready (rw other (dispatch_transport-IsSane peer t s ok))
    ]
    | inr waiting ↦ rw waiting (pending-Sane env.now (env.new_id peer) peer t s.current_world ok)
  ]

  start_binding-IsSane : (addr : Text) → Keeps IsSane (start_binding env addr)
  unfolding start_binding
  start_binding-IsSane addr s ok =
      let new = binding-Sane addr s.current_world ok env.now in
      elim (Option-cases (env.bind_error addr)) [
        | inl fine ↦ rw (fine, start_binding) new
        | inr (e, bad) ↦ rw (bad, start_binding) (signaling_failed-Sane addr _ new e)
      ]

  fix_world_remotes-IsSane : Keeps IsSane (fix_world_remotes env)
  unfolding fix_world_remotes close_remotes start_remotes
  fix_world_remotes-IsSane =
      followed_by-Keeps IsSane close_remotes (start_remotes env)
        (pass-Keeps IsSane undeclared_remotes close_remote
          λ peer s ok. unfold close_remote in remove_remote-Sane peer s.current_world ok)
        (pass-Keeps IsSane (peers_to_start env) (start_remote env) start_remote-IsSane)

  fix_world_timeouts-IsSane : Keeps IsSane (fix_world_timeouts env)
  unfolding fix_world_timeouts time_out
  fix_world_timeouts-IsSane =
      pass-Keeps IsSane (late_peers env) (time_out env.now)
        λ p s ok. give_up-Sane env.now p.0 p.1 s.current_world ok

  fix_world_signaling-IsSane : Keeps IsSane (fix_world_signaling env)
  unfolding fix_world_signaling fail_bindings close_signalings start_bindings sync_trust
      fail_binding close_signaling send_trust
  fix_world_signaling-IsSane =
      followed_by-Keeps IsSane (fail_bindings env)
        (followed_by close_signalings (followed_by (start_bindings env) (sync_trust env)))
        (pass-Keeps IsSane (late_bindings env) fail_binding
          λ addr s ok. signaling_failed-Sane addr s.current_world ok _)
        (followed_by-Keeps IsSane close_signalings
          (followed_by (start_bindings env) (sync_trust env))
          (pass-Keeps IsSane undeclared_signaling close_signaling
            λ addr s ok. remove_signaling-Sane addr s.current_world ok)
          (followed_by-Keeps IsSane (start_bindings env) (sync_trust env)
            (pass-Keeps IsSane (bindings_to_start env) (start_binding env) start_binding-IsSane)
            (pass-Keeps IsSane (trust_to_sync env) (send_trust env)
              λ addr s ok. trust_sent-Sane addr s.current_world ok env.epoch_secs)))

  fix_world-IsSane : Keeps IsSane (fix_world env)
  unfolding fix_world
  fix_world-IsSane =
      followed_by-Keeps IsSane (fix_world_signaling env)
        (followed_by (fix_world_remotes env) (fix_world_timeouts env)) fix_world_signaling-IsSane
        (followed_by-Keeps IsSane (fix_world_remotes env) (fix_world_timeouts env)
          fix_world_remotes-IsSane fix_world_timeouts-IsSane)

lose_connection-IsSane :
    (now : ℕ) (peer failure reason : Text) (id : ℕ) (s : Connections)
    → IsSane s
    → IsSane (lose_connection now peer failure reason id s).1
unfolding lose_connection
lose_connection-IsSane now peer failure reason id s ok =
    elim (Bool-cases (is_stale_connection_attempt s.current_world peer id)) [
      | inl stale ↦ rw stale ok
      | inr current ↦ rw current (give_up-Sane now peer failure s.current_world ok)
    ]

bind_inline-IsSane :
    (env : Env) (addr : Text) (s : Connections) → IsSane s → IsSane (bind_inline env addr s).1
unfolding bind_inline
bind_inline-IsSane env addr s ok =
    let new = binding-Sane addr s.current_world ok env.now in
    elim (Option-cases (env.bind_error addr)) [
      | inl fine ↦ rw (fine, bind_inline) new
      | inr (e, bad) ↦ rw (bad, bind_inline) (signaling_failed-Sane addr _ new e)
    ]

admit-IsSane :
    (env : Env) (ideal_id : ℕ) (addr peer : Text) (initiator : Bool)
    → Keeps IsSane (admit env ideal_id addr peer initiator)
unfolding admit
admit-IsSane env ideal_id addr peer true s ok =
    send_connect_message-IsSane env peer addr false _
      (connecting2-Sane env.now (env.new_id peer) peer (sctp addr) s.current_world ok)
admit-IsSane env ideal_id addr peer false s ok =
    connecting2-Sane env.now (env.new_id peer) peer (sctp addr) s.current_world ok

handle_signaling_connect_msg-IsSane :
    (env : Env) (ideal_id : ℕ) (addr peer : Text) (initiator : Bool)
    → Keeps IsSane (handle_signaling_connect_msg env ideal_id addr peer initiator)
unfolding handle_signaling_connect_msg refuse
handle_signaling_connect_msg-IsSane env ideal_id addr peer initiator s ok =
    elim (Bool-cases (is_connecting_or_connected (lookup peer s.current_world.remotes))) [
      | inl busy ↦ rw busy ok
      | inr idle ↦ elim (Bool-cases (is_cert_trusted (id_hash peer) s)) [
        | inl known ↦ rw idle (rw known (admit-IsSane env ideal_id addr peer initiator s ok))
        | inr unknown ↦ rw idle (rw unknown (failed-Sane peer _ s.current_world ok))
      ]
    ]

handle_signaling_msg-IsSane :
    (env : Env) (ideal_id : ℕ) (addr : Text) (msg : SignalingMsg)
    → Keeps IsSane (handle_signaling_msg env ideal_id addr msg)
unfolding handle_signaling_msg handle_signaling_bound_msg
handle_signaling_msg-IsSane env ideal_id addr (bound_msg id trusted) s ok =
    confirmed-Sane addr _ (bound-Sane addr s.current_world ok) trusted
handle_signaling_msg-IsSane env ideal_id addr (trusted_msg id trusted) s ok =
    confirmed-Sane addr s.current_world ok trusted
handle_signaling_msg-IsSane env ideal_id addr (connect_msg peer receiver initiator) s ok =
    handle_signaling_connect_msg-IsSane env ideal_id addr peer initiator s ok
handle_signaling_msg-IsSane env ideal_id addr (rejected_msg peer reason) s ok =
    failed-Sane peer _ s.current_world ok
handle_signaling_msg-IsSane env ideal_id addr (id_not_found_msg peer reason) s ok =
    failed-Sane peer _ s.current_world ok
handle_signaling_msg-IsSane env ideal_id addr (sdp_msg from to text) s ok = ok
handle_signaling_msg-IsSane env ideal_id addr (candidate_msg from to text) s ok = ok
handle_signaling_msg-IsSane env ideal_id addr (trust_msg from trusted) s ok = ok
handle_signaling_msg-IsSane env ideal_id addr ping_msg s ok = ok
handle_signaling_msg-IsSane env ideal_id addr pong_msg s ok = ok
handle_signaling_msg-IsSane env ideal_id addr (terminate_msg reason) s ok = ok

handle_accept_connection-IsSane :
    (env : Env) (addr : Text) → Keeps IsSane (handle_accept_connection env addr)
unfolding handle_accept_connection
handle_accept_connection-IsSane env addr s ok =
    elim (Option-cases (lookup addr s.current_world.signaling)) [
      | inl missing ↦ rw (missing, handle_accept_connection) (bind_inline-IsSane env addr _ ok)
      | inr (c, there) ↦ elim (Bool-cases (is_bound_status c.status)) [
        | inl bound ↦ rw (there, handle_accept_connection) (rw bound ok)
        | inr unbound ↦ elim (Bool-cases (is_binding_status c.status)) [
          | inl binding ↦ rw (there, handle_accept_connection) (rw unbound (rw binding ok))
          | inr idle ↦
              rw (there, handle_accept_connection)
                (rw unbound (rw idle (bind_inline-IsSane env addr _ ok)))
        ]
      ]
    ]

handle-IsSane : (e : Event) → Keeps IsSane (handle e)
unfolding handle handle_failed_to_connect handle_connection_broke handle_hey handle_bye
    handle_connect handle_stop_accepting handle_accept_stopped init_for_envoy handle_update_config
handle-IsSane (tick env) s ok = fix_world-IsSane env s ok
handle-IsSane (failed_to_connect_msg now peer reason id) s ok =
    lose_connection-IsSane now peer reason reason id s ok
handle-IsSane (connection_broke_msg now peer id) s ok = lose_connection-IsSane now peer _ _ id s ok
handle-IsSane (hey_msg host) s ok = connected-Sane host s.current_world ok
handle-IsSane (bye_msg host) s ok = remove_remote-Sane host s.current_world ok
handle-IsSane (from_signaling env ideal_id addr msg) s ok =
    handle_signaling_msg-IsSane env ideal_id addr msg s ok
handle-IsSane (accept_stopped_msg now addr) s ok =
    signaling_disconnected-Sane addr s.current_world ok now
handle-IsSane (connect_notif new_id peer transport) s ok =
    updated-Sane peer s.current_world reset_failed ok λ r found. reset_failed-Sane r
handle-IsSane (stop_accepting_notif addr) s ok = ok
handle-IsSane (accept_connection_notif env addr) s ok =
    handle_accept_connection-IsSane env addr s ok
handle-IsSane (start_as_envoy now ideal_id new_id host) s ok =
    connecting2-Sane now new_id host (ssh_stdio (codes "N/A") [] []) s.current_world ok
handle-IsSane (update_config_request trusted) s ok = ok

run_from : (es : List Event) (s : Connections) → IsSane s → IsSane (run es s)
unfolding run
run_from [] s ok = ok
run_from (e ∷ es) s ok = run_from es (handle e s).1 (handle-IsSane e s ok)

-- From a start without connections, whatever is declared, and after any sequence of messages,
-- notifications, passes, changes of the configuration and starts as an envoy: the stride of every peer lies between 1 and 60 seconds and that of every
-- signaling server is at most 60, and a peer that is connected, or disconnected and so to be tried
-- again, has been connected before.
pub run-Sane :
    (es : List Event) (s : Connections)
    → s.current_world ≡ empty_world
    → Sane (run es s).current_world
run-Sane es s start = run_from es s (rw start (record { remotes = tt; signaling = tt }))
