-- ===== src/World/Fix/Signaling.antt =====
-- `fix_world_signaling`: the bindings to signaling servers and their trust lists
-- (collab_mode/src/server.rs).
use collab_mode.Prelude.{
  ℕ, ◌-◌, ltb, leb, Bool, true, false, not, ◌&&◌, Option, none, some, List, [], ◌∷◌, ◌++◌, Text,
  codes,
}
use collab_mode.Map.{text_eq, lookup, update, contains_key}
use collab_mode.Signaling.{trust_msg}
use collab_mode.World.{
  SignalingStatus, SignalingState, from_secs, set_signaling_binding, mark_signaling_failed,
  remove_signaling,
}
use collab_mode.World.Pass.{
  Connections, Env, connection_progress, accept_stopped, signaling_remove, bind, send, Handled,
  pass, followed_by, filter_keys, text_subset,
}
use collab_mode.World.Fix.Timeouts.{waited}

-- The signaling pass. 1. The bindings that have taken too long.
unfoldable pub bind_timed_out : ℕ → SignalingState → Bool
bind_timed_out now state = elim state.status [
  | SignalingStatus.binding since ↦ ltb (from_secs 10) (waited now since)
  | _ ↦ false
]

unfoldable pub fail_binding : Text → Connections → Handled
unfolding mark_signaling_failed
fail_binding addr s = (
  signaling_remove addr ∷ [],
  record s { current_world = mark_signaling_failed addr (codes "bind timeout") s.current_world },
)

-- 2. The entries that are not declared any longer.
unfoldable pub close_signaling : Text → Connections → Handled
unfolding remove_signaling
close_signaling addr s =
    (signaling_remove addr ∷ [], record s { current_world = remove_signaling addr s.current_world })

-- 3. Whether a binding is started now.
unfoldable pub bind_now : ℕ → Option SignalingState → Bool
bind_now now none = true
bind_now now (some state) = elim state.status [
  | SignalingStatus.pending ↦ true
  | SignalingStatus.disconnected next_retry_at _ ↦ leb next_retry_at now
  | _ ↦ false
]

abbrev pub trusted_of : Option SignalingState → List Text
trusted_of none = []
trusted_of (some s) = s.trusted

unfoldable pub start_binding : Env → Text → Connections → Handled
unfolding set_signaling_binding mark_signaling_failed
start_binding env addr s =
    let world = set_signaling_binding env.now addr s.current_world in
    let out =
      connection_progress addr
      ∷ bind addr (trusted_of (lookup addr s.ideal_world.signaling))
      ∷ [] in
    elim (env.bind_error addr) [
      | none ↦ (out, record s { current_world = world })
      | some e ↦ (
        out ++ accept_stopped addr ∷ [],
        record s { current_world = mark_signaling_failed addr e world },
      )
    ]

-- 4. Whether the trust list is sent now.
unfoldable pub trust_now : ℕ → List Text → SignalingState → Bool
trust_now now_sec ideal_trusted cur =
    let differs : Bool =
      not (text_subset cur.trusted ideal_trusted && text_subset ideal_trusted cur.trusted) in
    let waits : Bool = elim cur.trust_sent_at [ none ↦ false | some t ↦ ltb (now_sec - t) 5 ] in
    elim cur.status [ SignalingStatus.bound ↦ differs && not waits | _ ↦ false ]

unfoldable pub send_trust : Env → Text → Connections → Handled
send_trust env addr s = (
  send addr (trust_msg s.host_id s.ideal_world.trusted) ∷ [],
  record s {
    current_world = record (s.current_world) {
      signaling =
          update addr (λ c. record c { trust_sent_at = some env.epoch_secs })
            s.current_world.signaling;
    };
  },
)

unfoldable pub late_bindings : Env → Connections → List Text
unfolding bind_timed_out
late_bindings env s = filter_keys (λ _ c. bind_timed_out env.now c) s.current_world.signaling

unfoldable pub fail_bindings : Env → Connections → Handled
unfolding pass late_bindings fail_binding
fail_bindings env = pass (late_bindings env) fail_binding

unfoldable pub undeclared_signaling : Connections → List Text
undeclared_signaling s =
    filter_keys (λ addr _. not (contains_key addr s.ideal_world.signaling))
      s.current_world.signaling

unfoldable pub close_signalings : Connections → Handled
unfolding pass undeclared_signaling close_signaling
close_signalings = pass undeclared_signaling close_signaling

unfoldable pub bindings_to_start : Env → Connections → List Text
unfolding bind_now
bindings_to_start env s =
    filter_keys (λ addr _. bind_now env.now (lookup addr s.current_world.signaling))
      s.ideal_world.signaling

unfoldable pub start_bindings : Env → Connections → Handled
unfolding pass bindings_to_start start_binding
start_bindings env = pass (bindings_to_start env) (start_binding env)

unfoldable pub trust_to_sync : Env → Connections → List Text
unfolding trust_now
trust_to_sync env s =
    filter_keys (λ _ c. trust_now env.epoch_secs s.ideal_world.trusted c) s.current_world.signaling

unfoldable pub sync_trust : Env → Connections → Handled
unfolding pass trust_to_sync send_trust
sync_trust env = pass (trust_to_sync env) (send_trust env)

unfoldable pub fix_world_signaling : Env → Connections → Handled
unfolding followed_by fail_bindings close_signalings start_bindings sync_trust
fix_world_signaling env =
    followed_by (fail_bindings env)
      (followed_by close_signalings (followed_by (start_bindings env) (sync_trust env)))
