-- ===== src/World/Trust.antt =====
-- Whom this host trusts: no message adds a certificate to those it trusts already.
use mathlib.Core.List.{◌++◌}
use collab_mode.Prelude.{
  ℕ, ◌≡◌, ◌⊎◌, inl, inr, refl, Bool, true, false, Bool-cases, Option-cases, some, List, [], ◌∷◌,
  All, arith, Text, codes,
}
use collab_mode.Map.{text_eq, text_beq, text_beq_iff, lookup}
use collab_mode.Types.Ids.{id_hash}
use collab_mode.World.{TransportConfig, sctp, ssh_stdio}
use collab_mode.World.Fix.{
  Connections, Env, set_insert, text_contains, peers_to_start, late_peers, late_bindings,
  undeclared_signaling, bindings_to_start, trust_to_sync, close_remotes, start_remotes,
  fail_bindings, close_signalings, start_bindings, sync_trust, close_remote, undeclared_remotes,
  start_remote, is_ready, time_out, send_connect_message, try_connect_remote,
  try_connect_remote_sctp, try_connect_remote_ssh, dispatch_transport, fail_binding,
  close_signaling, start_binding, send_trust, followed_by, fix_world, fix_world_signaling,
  fix_world_remotes, fix_world_timeouts, envoy_name_of,
}
use collab_mode.Signaling.{
  SignalingMsg, bound_msg, connect_msg, sdp_msg, candidate_msg, trust_msg, trusted_msg,
  id_not_found_msg, rejected_msg, ping_msg, pong_msg, terminate_msg,
}
use collab_mode.World.Events.{
  handle_accept_stopped, handle_signaling_msg, handle_signaling_bound_msg,
  handle_signaling_connect_msg, admit, refuse, bind_inline, is_connecting_or_connected,
  is_cert_trusted, any_hash, is_connecting_or_connected, handle_failed_to_connect,
  handle_connection_broke, lose_connection, handle_hey, handle_bye, handle_connect,
  handle_stop_accepting, handle_accept_connection, is_bound_status, is_binding_status,
}
use collab_mode.World.Setup.{init_for_envoy, handle_update_config}
use collab_mode.World.Keeps.{Keeps, pass-Keeps, followed_by-Keeps}
use collab_mode.World.Reach.{
  Event, tick, failed_to_connect_msg, connection_broke_msg, hey_msg, bye_msg, from_signaling,
  accept_stopped_msg, connect_notif, stop_accepting_notif, accept_connection_notif, start_as_envoy,
  update_config_request, handle, run,
}
use collab_mode.World.{is_stale_connection_attempt}

-- Every certificate that this host accepts is a known one.
pub AcceptsOnly : (Text → Type 0) → Connections → Type 0
AcceptsOnly Known s = (hash : Text) → is_cert_trusted hash s ≡ true → Known hash

-- The certificates that a pass makes for an envoy, those of the host that starts this one as an envoy
-- and those of the hosts that the editor trusts are known ones.
unfoldable pub IssuesOnly : (Text → Type 0) → Event → Type 0
IssuesOnly Known (tick env) =
    (name hash : Text)
    → env.cert_hash name ≡ some hash
    → Known (id_hash (name ++ codes "::" ++ hash))
IssuesOnly Known (start_as_envoy _ _ _ host) = Known (id_hash host)
IssuesOnly Known (update_config_request trusted) =
    (hash : Text) → any_hash hash trusted ≡ true → Known hash
IssuesOnly Known _ = Unit

any_hash-insert :
    (hash id : Text) (ids : List Text)
    → any_hash hash (set_insert id ids) ≡ true
    → (any_hash hash ids ≡ true) ⊎ (id_hash id ≡ hash)
any_hash-insert hash id ids h = elim (Bool-cases (text_contains ids id)) [
  | inl there ↦ inl (rw there at h)
  | inr new ↦ added ids (rw new at h)
]
  where
    added :
        (xs : List Text)
        → any_hash hash (xs ++ id ∷ []) ≡ true
        → (any_hash hash xs ≡ true) ⊎ (id_hash id ≡ hash)
    added [] a = inr ((text_beq_iff (id_hash id) hash).0 (ground arith))
    added (x ∷ xs) a = ground (arith, added xs)

module _ (Known : Text → Type 0) where
  set_ideal-AcceptsOnly :
      (id : Text) (s s' : Connections)
      → s'.ideal_world.trusted ≡ set_insert id s.ideal_world.trusted
      → s'.local_trusted_hosts ≡ s.local_trusted_hosts
      → Known (id_hash id)
      → AcceptsOnly Known s
      → AcceptsOnly Known s'
  unfolding AcceptsOnly is_cert_trusted
  set_ideal-AcceptsOnly id s s' ideal local known ok hash h =
      let h' = rw local at (rw ideal at h) in
      elim (Bool-cases (any_hash hash s.local_trusted_hosts)) [
        | inl own ↦ ok hash (ground arith)
        | inr foreign ↦
            let inserted : any_hash hash (set_insert id s.ideal_world.trusted) ≡ true =
              ground arith in
            elim (any_hash-insert hash id s.ideal_world.trusted inserted) [
              | inl before ↦ ok hash (ground arith)
              | inr e ↦ rw⁻¹ e known
            ]
      ]

  set_local-AcceptsOnly :
      (id : Text) (s s' : Connections)
      → s'.ideal_world.trusted ≡ s.ideal_world.trusted
      → s'.local_trusted_hosts ≡ set_insert id s.local_trusted_hosts
      → Known (id_hash id)
      → AcceptsOnly Known s
      → AcceptsOnly Known s'
  unfolding AcceptsOnly is_cert_trusted
  set_local-AcceptsOnly id s s' ideal local known ok hash h =
      let h' = rw local at (rw ideal at h) in
      elim (Bool-cases (any_hash hash s.ideal_world.trusted)) [
        | inl declared ↦ ok hash (ground arith)
        | inr foreign ↦
            let inserted : any_hash hash (set_insert id s.local_trusted_hosts) ≡ true =
              ground arith in
            elim (any_hash-insert hash id s.local_trusted_hosts inserted) [
              | inl before ↦ ok hash (ground arith)
              | inr e ↦ rw⁻¹ e known
            ]
      ]

  Accepts : Connections → Type 0
  Accepts = AcceptsOnly Known

  send_connect_message-Accepts :
      (env : Env) (peer addr : Text) (initiator : Bool)
      → Keeps Accepts (send_connect_message env peer addr initiator)
  unfolding Accepts AcceptsOnly is_cert_trusted send_connect_message
  send_connect_message-Accepts env peer addr initiator s ok =
      elim (Option-cases (env.send_error addr)) [
        | inl sent ↦ rw (sent, send_connect_message) ok
        | inr (e, failed) ↦ rw (failed, send_connect_message) ok
      ]

  dispatch_transport-Accepts :
      (env : Env) (peer : Text) (t : TransportConfig)
      → IssuesOnly Known (tick env)
      → Keeps Accepts (dispatch_transport env peer t)
  unfolding Accepts AcceptsOnly is_cert_trusted dispatch_transport try_connect_remote_sctp
      try_connect_remote_ssh IssuesOnly
  dispatch_transport-Accepts env peer (sctp addr) issues s ok =
      send_connect_message-Accepts env peer addr true _ ok
  dispatch_transport-Accepts env peer (ssh_stdio ssh_host command projects) issues s ok =
      elim (Option-cases (env.cert_hash (envoy_name_of s.host_name))) [
        | inl bad ↦ rw (bad, try_connect_remote_ssh) ok
        | inr (hash, good) ↦
            rw (good, try_connect_remote_ssh)
              (set_local-AcceptsOnly (envoy_name_of s.host_name ++ codes "::" ++ hash) s
                (record s {
                  local_trusted_hosts =
                      set_insert (envoy_name_of s.host_name ++ codes "::" ++ hash)
                        s.local_trusted_hosts;
                })
                refl refl (issues _ hash good) ok)
      ]

  start_remote-Accepts :
      (env : Env)
      → IssuesOnly Known (tick env)
      → (x : Text × TransportConfig) → Keeps Accepts (start_remote env x)
  unfolding Accepts AcceptsOnly is_cert_trusted start_remote try_connect_remote
  start_remote-Accepts env issues (peer, t) s ok = elim (Bool-cases (is_ready t s.current_world)) [
    | inl ready ↦ elim (Bool-cases (text_beq peer s.host_id)) [
      | inl own ↦ rw ready (rw own ok)
      | inr other ↦ rw ready (rw other (dispatch_transport-Accepts env peer t issues s ok))
    ]
    | inr waiting ↦ rw waiting ok
  ]

  start_binding-Accepts : (env : Env) (addr : Text) → Keeps Accepts (start_binding env addr)
  unfolding Accepts AcceptsOnly is_cert_trusted start_binding
  start_binding-Accepts env addr s ok = elim (Option-cases (env.bind_error addr)) [
    | inl fine ↦ rw (fine, start_binding) ok
    | inr (e, bad) ↦ rw (bad, start_binding) ok
  ]

  fix_world-Accepts : (env : Env) → IssuesOnly Known (tick env) → Keeps Accepts (fix_world env)
  unfolding Accepts AcceptsOnly is_cert_trusted fix_world fix_world_remotes close_remotes
      start_remotes fix_world_timeouts time_out fix_world_signaling fail_bindings close_signalings
      start_bindings sync_trust fail_binding close_signaling send_trust close_remote
  fix_world-Accepts env issues =
      followed_by-Keeps Accepts (fix_world_signaling env)
        (followed_by (fix_world_remotes env) (fix_world_timeouts env))
        (followed_by-Keeps Accepts (fail_bindings env)
          (followed_by close_signalings (followed_by (start_bindings env) (sync_trust env)))
          (pass-Keeps Accepts (late_bindings env) fail_binding λ addr s ok. ok)
          (followed_by-Keeps Accepts close_signalings
            (followed_by (start_bindings env) (sync_trust env))
            (pass-Keeps Accepts undeclared_signaling close_signaling λ addr s ok. ok)
            (followed_by-Keeps Accepts (start_bindings env) (sync_trust env)
              (pass-Keeps Accepts (bindings_to_start env) (start_binding env)
                (start_binding-Accepts env))
              (pass-Keeps Accepts (trust_to_sync env) (send_trust env) λ addr s ok. ok))))
        (followed_by-Keeps Accepts (fix_world_remotes env) (fix_world_timeouts env)
          (followed_by-Keeps Accepts close_remotes (start_remotes env)
            (pass-Keeps Accepts undeclared_remotes close_remote λ peer s ok. ok)
            (pass-Keeps Accepts (peers_to_start env) (start_remote env)
              (start_remote-Accepts env issues)))
          (pass-Keeps Accepts (late_peers env) (time_out env.now) λ x s ok. ok))

  lose_connection-Accepts :
      (now : ℕ) (peer failure reason : Text) (id : ℕ)
      → Keeps Accepts (lose_connection now peer failure reason id)
  unfolding Accepts AcceptsOnly is_cert_trusted lose_connection
  lose_connection-Accepts now peer failure reason id s ok =
      elim (Bool-cases (is_stale_connection_attempt s.current_world peer id)) [
        | inl stale ↦ rw stale ok
        | inr current ↦ rw current ok
      ]

  bind_inline-Accepts : (env : Env) (addr : Text) → Keeps Accepts (bind_inline env addr)
  unfolding Accepts AcceptsOnly is_cert_trusted bind_inline
  bind_inline-Accepts env addr s ok = elim (Option-cases (env.bind_error addr)) [
    | inl fine ↦ rw (fine, bind_inline) ok
    | inr (e, bad) ↦ rw (bad, bind_inline) ok
  ]

  handle_accept_connection-Accepts :
      (env : Env) (addr : Text) → Keeps Accepts (handle_accept_connection env addr)
  unfolding Accepts AcceptsOnly is_cert_trusted handle_accept_connection
  handle_accept_connection-Accepts env addr s ok =
      elim (Option-cases (lookup addr s.current_world.signaling)) [
        | inl missing ↦ rw (missing, handle_accept_connection) (bind_inline-Accepts env addr _ ok)
        | inr (c, there) ↦ elim (Bool-cases (is_bound_status c.status)) [
          | inl bound ↦ rw (there, handle_accept_connection) (rw bound ok)
          | inr unbound ↦ elim (Bool-cases (is_binding_status c.status)) [
            | inl binding ↦ rw (there, handle_accept_connection) (rw unbound (rw binding ok))
            | inr idle ↦
                rw (there, handle_accept_connection)
                  (rw unbound (rw idle (bind_inline-Accepts env addr _ ok)))
          ]
        ]
      ]

  admit-Accepts :
      (env : Env) (ideal_id : ℕ) (addr peer : Text) (initiator : Bool) (s : Connections)
      → is_cert_trusted (id_hash peer) s ≡ true
      → Accepts s
      → Accepts (admit env ideal_id addr peer initiator s).1
  unfolding Accepts AcceptsOnly admit
  admit-Accepts env ideal_id addr peer true s known ok =
      send_connect_message-Accepts env peer addr false _
        (set_ideal-AcceptsOnly peer s _ refl refl (ok (id_hash peer) known) ok)
  admit-Accepts env ideal_id addr peer false s known ok =
      set_ideal-AcceptsOnly peer s _ refl refl (ok (id_hash peer) known) ok

  handle_signaling_connect_msg-Accepts :
      (env : Env) (ideal_id : ℕ) (addr peer : Text) (initiator : Bool)
      → Keeps Accepts (handle_signaling_connect_msg env ideal_id addr peer initiator)
  unfolding handle_signaling_connect_msg refuse Accepts AcceptsOnly
  handle_signaling_connect_msg-Accepts env ideal_id addr peer initiator s ok =
      elim (Bool-cases (is_connecting_or_connected (lookup peer s.current_world.remotes))) [
        | inl busy ↦ rw busy ok
        | inr idle ↦ elim (Bool-cases (is_cert_trusted (id_hash peer) s)) [
          | inl known ↦
              rw idle (rw known (admit-Accepts env ideal_id addr peer initiator s known ok))
          | inr unknown ↦ rw idle (rw unknown (unfold is_cert_trusted in ok))
        ]
      ]

  handle_signaling_msg-Accepts :
      (env : Env) (ideal_id : ℕ) (addr : Text) (msg : SignalingMsg)
      → Keeps Accepts (handle_signaling_msg env ideal_id addr msg)
  unfolding Accepts AcceptsOnly is_cert_trusted handle_signaling_msg handle_signaling_bound_msg
  handle_signaling_msg-Accepts env ideal_id addr (bound_msg id trusted) s ok = ok
  handle_signaling_msg-Accepts env ideal_id addr (trusted_msg id trusted) s ok = ok
  handle_signaling_msg-Accepts env ideal_id addr (connect_msg peer receiver initiator) s ok =
      handle_signaling_connect_msg-Accepts env ideal_id addr peer initiator s ok
  handle_signaling_msg-Accepts env ideal_id addr (rejected_msg peer reason) s ok = ok
  handle_signaling_msg-Accepts env ideal_id addr (id_not_found_msg peer reason) s ok = ok
  handle_signaling_msg-Accepts env ideal_id addr (sdp_msg from to text) s ok = ok
  handle_signaling_msg-Accepts env ideal_id addr (candidate_msg from to text) s ok = ok
  handle_signaling_msg-Accepts env ideal_id addr (trust_msg from trusted) s ok = ok
  handle_signaling_msg-Accepts env ideal_id addr ping_msg s ok = ok
  handle_signaling_msg-Accepts env ideal_id addr pong_msg s ok = ok
  handle_signaling_msg-Accepts env ideal_id addr (terminate_msg reason) s ok = ok

  handle_update_config-Accepts :
      (trusted : List Text)
      → ((hash : Text) → any_hash hash trusted ≡ true → Known hash)
      → Keeps Accepts (handle_update_config trusted)
  unfolding Accepts AcceptsOnly is_cert_trusted handle_update_config
  handle_update_config-Accepts trusted known s ok = λ hash h.
      elim (Bool-cases (any_hash hash s.local_trusted_hosts)) [
        | inl own ↦ ok hash (ground arith)
        | inr foreign ↦ known hash (ground arith)
      ]

  handle-Accepts : (e : Event) → IssuesOnly Known e → Keeps Accepts (handle e)
  unfolding Accepts AcceptsOnly is_cert_trusted handle handle_failed_to_connect
      handle_connection_broke handle_hey handle_bye handle_connect handle_stop_accepting
      handle_accept_stopped init_for_envoy handle_update_config
  handle-Accepts (tick env) issues s ok = fix_world-Accepts env issues s ok
  handle-Accepts (failed_to_connect_msg now peer reason id) issues s ok =
      lose_connection-Accepts now peer reason reason id s ok
  handle-Accepts (connection_broke_msg now peer id) issues s ok =
      lose_connection-Accepts now peer _ _ id s ok
  handle-Accepts (hey_msg host) issues s ok = ok
  handle-Accepts (bye_msg host) issues s ok = ok
  handle-Accepts (from_signaling env ideal_id addr msg) issues s ok =
      handle_signaling_msg-Accepts env ideal_id addr msg s ok
  handle-Accepts (accept_stopped_msg now addr) issues s ok = ok
  handle-Accepts (connect_notif new_id peer transport) issues s ok = ok
  handle-Accepts (stop_accepting_notif addr) issues s ok = ok
  handle-Accepts (accept_connection_notif env addr) issues s ok =
      handle_accept_connection-Accepts env addr s ok
  handle-Accepts (start_as_envoy now ideal_id new_id host) known s ok =
      set_ideal-AcceptsOnly host s (init_for_envoy now ideal_id new_id host s).1 refl refl
        (unfold IssuesOnly in known) ok
  handle-Accepts (update_config_request trusted) known s ok =
      handle_update_config-Accepts trusted (unfold IssuesOnly in known) s ok

run-Accepts :
    (Known : Text → Type 0) (es : List Event) (s : Connections)
    → All (IssuesOnly Known) es
    → AcceptsOnly Known s
    → AcceptsOnly Known (run es s)
unfolding run
run-Accepts Known [] s issues ok = ok
run-Accepts Known (e ∷ es) s (issue, issues) ok =
    run-Accepts Known es (handle e s).1 issues (unfold Accepts in handle-Accepts Known e issue s ok)

-- After any sequence of messages, notifications, passes, changes of the configuration and starts as
-- an envoy, this host accepts only the certificates that it accepted at the start, those that it made
-- for an envoy itself, and those of the hosts that its editor trusts and of the host that started it
-- as an envoy: where all of these are known ones, a certificate that it accepts at the end is known. So no peer and no signaling server can make itself trusted.
pub run-is_cert_trusted :
    (Known : Text → Type 0) (es : List Event) (s : Connections) (hash : Text)
    → All (IssuesOnly Known) es
    → ((h : Text) → is_cert_trusted h s ≡ true → Known h)
    → is_cert_trusted hash (run es s) ≡ true
    → Known hash
unfolding AcceptsOnly
run-is_cert_trusted Known es s hash issues ok accepted =
    run-Accepts Known es s issues ok hash accepted
