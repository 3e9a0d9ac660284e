-- ===== src/World/Events.antt =====
-- What the messages of the editor, of the peers and of the signaling servers do to the connections
-- (collab_mode/src/server.rs).
use collab_mode.Prelude.{
  ℕ, Bool, true, false, ◌||◌, Option, none, some, List, [], ◌∷◌, ◌++◌, Text, codes, if◌then◌else◌,
}
use collab_mode.Map.{text_eq, text_beq, lookup, insert, remove, update}
use collab_mode.Types.Ids.{id_hash}
use collab_mode.Signaling.{
  SignalingMsg, bound_msg, connect_msg, trusted_msg, rejected_msg, id_not_found_msg,
}
use collab_mode.World.{
  TransportConfig, sctp, SignalingStatus, RemoteStatus, RemoteState, WorldState,
  initial_retry_stride_secs, is_stale_connection_attempt, set_remote_connecting2,
  mark_remote_connected, mark_remote_failed, remove_remote, default_signaling, update_remote,
  set_signaling_binding, mark_signaling_bound, mark_signaling_disconnected, mark_signaling_failed,
}
use collab_mode.World.Fix.{
  Connections, Env, connection_broke, connected, already_connected, remote_left, permission_denied,
  network_error, signaling_error, accepting_connection, accept_stopped, stopped_accepting,
  bind_failed, fix_world_next, save_trusted, disconnect, start_connect_sock, send, bind, Handled,
  set_insert, ever_of, give_up, send_connect_message,
}

abbrev pub with_current : (WorldState → WorldState) → Connections → Connections
with_current f s = record s { current_world = f s.current_world }

-- `Msg::FailedToConnect` and `Msg::ConnectionBroke` differ in the two reasons.
unfoldable pub lose_connection : ℕ → Text → Text → Text → ℕ → Connections → Handled
unfolding is_stale_connection_attempt give_up
lose_connection now peer failure reason msg_connection_id s =
    if is_stale_connection_attempt s.current_world peer msg_connection_id then ([], s) else (
      (if ever_of (lookup peer s.current_world.remotes)
          then fix_world_next ∷ connection_broke peer reason ∷ []
          else connection_broke peer reason ∷ []),
      with_current (give_up now peer failure) s,
    )

unfoldable pub handle_failed_to_connect : ℕ → Text → Text → ℕ → Connections → Handled
unfolding lose_connection
handle_failed_to_connect now peer reason id s = lose_connection now peer reason reason id s

unfoldable pub handle_connection_broke : ℕ → Text → ℕ → Connections → Handled
unfolding lose_connection
handle_connection_broke now peer id s =
    lose_connection now peer (codes "broke before reaching Connected") [] id s

-- `Msg::Hey`. The trusted hosts are written to the configuration file.
unfoldable pub handle_hey : Text → Connections → Handled
unfolding mark_remote_connected
handle_hey host s = (
  connected host ∷ save_trusted s.ideal_world.trusted ∷ [],
  with_current (mark_remote_connected host) s,
)

-- `Msg::Bye`
unfoldable pub handle_bye : Text → Connections → Handled
unfolding remove_remote
handle_bye host s =
    (disconnect host ∷ fix_world_next ∷ remote_left host ∷ [], with_current (remove_remote host) s)

unfoldable pub is_failed : RemoteStatus → Bool
is_failed (RemoteStatus.failed _) = true
is_failed _ = false

unfoldable pub is_connected : RemoteStatus → Bool
is_connected RemoteStatus.connected = true
is_connected _ = false

-- A failed entry becomes a pending one.
abbrev pub reset_failed : RemoteState → RemoteState
reset_failed r = if is_failed r.status then record r { status = RemoteStatus.pending } else r

unfoldable pub remote_connected : Text → WorldState → Bool
unfolding is_connected
remote_connected peer world = elim (lookup peer world.remotes) [
  | none ↦ false
  | some r ↦ is_connected r.status
]

abbrev pub declare_remote : Text → RemoteState → WorldState → WorldState
declare_remote peer r world = record world { remotes = insert peer r world.remotes }

-- The notification "Connect", with the signaling address normalised.
unfoldable pub handle_connect : ℕ → Text → TransportConfig → Connections → Handled
unfolding remote_connected is_failed
handle_connect new_id peer transport s =
    let ideal =
      declare_remote peer
        (record {
          transport = transport;
          status = RemoteStatus.connected;
          ever_connected = false;
          retry_stride_secs = initial_retry_stride_secs;
          connection_id = new_id;
        })
        s.ideal_world in
    let current = update_remote peer reset_failed s.current_world in
    (
      (if remote_connected peer current
          then already_connected peer ∷ fix_world_next ∷ []
          else fix_world_next ∷ []),
      record s { ideal_world = ideal; current_world = current },
    )

-- The notification "StopAccepting".
unfoldable pub handle_stop_accepting : Text → Connections → Handled
handle_stop_accepting addr s = (
  stopped_accepting addr ∷ fix_world_next ∷ [],
  record s {
    ideal_world = record (s.ideal_world) { signaling = remove addr s.ideal_world.signaling };
  },
)

abbrev pub is_bound_status : SignalingStatus → Bool
is_bound_status SignalingStatus.bound = true
is_bound_status _ = false

abbrev pub is_binding_status : SignalingStatus → Bool
is_binding_status (SignalingStatus.binding _) = true
is_binding_status _ = false

-- The binding that "AcceptConnection" starts where none is under way.
unfoldable pub bind_inline : Env → Text → Connections → Handled
unfolding set_signaling_binding mark_signaling_failed
bind_inline env addr s =
    let world = set_signaling_binding env.now addr s.current_world in
    let call = bind addr s.ideal_world.trusted in
    elim (env.bind_error addr) [
      | none ↦ (call ∷ [], record s { current_world = world })
      | some e ↦ (
        call ∷ bind_failed addr ∷ [],
        record s { current_world = mark_signaling_failed addr e world },
      )
    ]

unfoldable pub handle_accept_connection : Env → Text → Connections → Handled
unfolding bind_inline
handle_accept_connection env addr s =
    let s' = record s {
      ideal_world = record (s.ideal_world) {
        signaling = insert addr (default_signaling SignalingStatus.bound) s.ideal_world.signaling;
      };
    } in
    elim (lookup addr s.current_world.signaling) [
      | none ↦ bind_inline env addr s'
      | some state ↦
          (if is_bound_status state.status
            then (accepting_connection addr ∷ [], s')
            else if is_binding_status state.status
            then ([], s')
            else bind_inline env addr s')
    ]

abbrev pub any_hash : Text → List Text → Bool
any_hash hash [] = false
any_hash hash (id ∷ ids) = text_beq (id_hash id) hash || any_hash hash ids

unfoldable pub is_cert_trusted : Text → Connections → Bool
unfolding id_hash
is_cert_trusted cert_hash s =
    any_hash cert_hash s.ideal_world.trusted || any_hash cert_hash s.local_trusted_hosts

-- Whether an attempt to connect is past its first stage.
unfoldable pub is_connecting_or_connected : Option RemoteState → Bool
is_connecting_or_connected none = false
is_connecting_or_connected (some r) = elim r.status [
  | RemoteStatus.connecting_stage2 _ ↦ true
  | RemoteStatus.connected ↦ true
  | _ ↦ false
]

unfoldable pub refuse : Text → Text → Connections → Handled
unfolding mark_remote_failed
refuse addr peer s = (
  permission_denied peer
      ∷ send addr (rejected_msg peer (codes "Provided certificate not in my trusted list"))
      ∷ [],
  with_current (mark_remote_failed peer (codes "certificate not trusted")) s,
)

-- The declaration of a trusted peer, and the start of the connection.
unfoldable pub admit : Env → ℕ → Text → Text → Bool → Connections → Handled
unfolding set_remote_connecting2 send_connect_message
admit env ideal_id addr peer initiator s =
    let ideal =
      declare_remote peer
        (record {
          transport = sctp addr;
          status = RemoteStatus.connected;
          ever_connected = true;
          retry_stride_secs = initial_retry_stride_secs;
          connection_id = ideal_id;
        })
        (record (s.ideal_world) { trusted = set_insert peer s.ideal_world.trusted }) in
    let (id, current) =
      set_remote_connecting2 env.now (env.new_id peer) peer (sctp addr) s.current_world in
    let s' = record s { ideal_world = ideal; current_world = current } in
    let (out, s'') : Handled =
      if initiator then send_connect_message env peer addr false s' else ([], s') in
    (out ++ start_connect_sock peer id addr ∷ [], s'')

-- `SignalingMsg::Connect`
unfoldable pub handle_signaling_connect_msg : Env → ℕ → Text → Text → Bool → Connections → Handled
unfolding is_connecting_or_connected is_cert_trusted id_hash admit refuse
handle_signaling_connect_msg env ideal_id addr peer initiator s =
    if is_connecting_or_connected (lookup peer s.current_world.remotes)
    then ([], s)
    else if is_cert_trusted (id_hash peer) s
    then admit env ideal_id addr peer initiator s
    else refuse addr peer s

abbrev pub confirm_trust : Text → List Text → WorldState → WorldState
confirm_trust addr trusted world = record world {
  signaling =
      update addr (λ c. record c { trusted = trusted; trust_sent_at = none }) world.signaling;
}

-- `SignalingMsg::Bound`
unfoldable pub handle_signaling_bound_msg : Text → List Text → Connections → Handled
unfolding mark_signaling_bound
handle_signaling_bound_msg addr trusted s = (
  fix_world_next ∷ accepting_connection addr ∷ [],
  with_current (λ w. confirm_trust addr trusted (mark_signaling_bound addr w)) s,
)

unfoldable pub handle_signaling_msg : Env → ℕ → Text → SignalingMsg → Connections → Handled
unfolding handle_signaling_bound_msg handle_signaling_connect_msg mark_remote_failed
handle_signaling_msg env ideal_id addr (bound_msg _ trusted) s =
    handle_signaling_bound_msg addr trusted s
handle_signaling_msg env ideal_id addr (trusted_msg _ trusted) s =
    ([], with_current (confirm_trust addr trusted) s)
handle_signaling_msg env ideal_id addr (connect_msg peer _ initiator) s =
    handle_signaling_connect_msg env ideal_id addr peer initiator s
handle_signaling_msg env ideal_id addr (rejected_msg peer reason) s = (
  network_error peer ∷ [],
  with_current (mark_remote_failed peer (codes "Rejected by signaling: " ++ reason)) s,
)
handle_signaling_msg env ideal_id addr (id_not_found_msg peer reason) s = (
  signaling_error reason ∷ [],
  with_current (mark_remote_failed peer (codes "IdNotFound: " ++ reason)) s,
)
handle_signaling_msg env ideal_id addr _ s = ([], s)

-- The end of a binding.
unfoldable pub handle_accept_stopped : ℕ → Text → Connections → Handled
unfolding mark_signaling_disconnected
handle_accept_stopped now addr s = (
  accept_stopped addr ∷ fix_world_next ∷ [],
  with_current (mark_signaling_disconnected now addr) s,
)
