-- ===== src/World/Attempt.antt =====
-- `fix_world_remotes` and a declared peer that is due: the attempt that is made.
use mathlib.Core.List.{◌++◌}
use collab_mode.Prelude.{
  ℕ, ◌≡◌, inl, inr, refl, ap, ◌∙◌, true, false, not, Bool-cases, Option, Option-cases, none, some,
  List, [], ◌∷◌, All, Text,
}
use collab_mode.Map.{text_eq, text_beq, lookup, contains_key}
use collab_mode.Map.Laws.{beq_self, lookup-insert, lookup-update}
use collab_mode.World.{
  TransportConfig, sctp, ssh_stdio, WorldState, RemoteStatus, RemoteState, set_remote_connecting1,
  history_of, mark_remote_failed,
}
use collab_mode.World.Fix.{
  Connections, Env, each, pass, followed_by, close_remote, close_remotes, undeclared_remotes,
  filter_keys, start_now, remotes_to_start, peers_to_start, is_ready, start_remote, start_remotes,
  send_connect_message, send_failed, no_cert, try_connect_remote, try_connect_remote_sctp,
  try_connect_remote_ssh, dispatch_transport, envoy_name_of, fix_world_remotes,
}
use collab_mode.World.Declared.{
  Leaves, each-Leaves, start_remote-Leaves, close_remote-Leaves, apart_by_key, text_beq_comm,
}

-- What the outside answers to an attempt over a transport.
unfoldable pub attempt_error : Env → Text → TransportConfig → Option Text
attempt_error env host_name (sctp addr) = elim (env.send_error addr) [
  | none ↦ none
  | some e ↦ some (send_failed e)
]
attempt_error env host_name (ssh_stdio ssh_host command projects) =
    elim (env.cert_hash (envoy_name_of host_name)) [
      | none ↦ some (no_cert env.cert_error)
      | some hash ↦ none
    ]

-- The status of an attempt that begins at `now`.
unfoldable pub attempt_status : ℕ → Option Text → RemoteStatus
attempt_status now none = RemoteStatus.connecting_stage1 now
attempt_status now (some reason) = RemoteStatus.failed reason

-- The entry of `p` tells of an attempt of this pass.
Attempted : Env → Text → Text → TransportConfig → Connections → Type 0
Attempted env host_name p t s =
    (q : RemoteState) × (lookup p s.current_world.remotes ≡ some q)
    × (q.connection_id ≡ env.new_id p)
    × (q.transport ≡ t)
    × (q.status ≡ attempt_status env.now (attempt_error env host_name t))

abbrev first_stage : ℕ → ℕ → TransportConfig → Option RemoteState → RemoteState
first_stage now id t old = record {
  transport = t;
  status = RemoteStatus.connecting_stage1 now;
  ever_connected = (history_of old).0;
  retry_stride_secs = (history_of old).1;
  connection_id = id;
}

first_stage-lookup :
    (now id : ℕ) (p : Text) (t : TransportConfig) (w : WorldState)
    → lookup p (set_remote_connecting1 now id p t w).1.remotes
      ≡ some (first_stage now id t (lookup p w.remotes))
unfolding set_remote_connecting1
first_stage-lookup now id p t w = rw lookup-insert (rw (beq_self p) refl)

-- The entry after `set_remote_connecting1`, and after a failure.
failed-lookup :
    (p reason : Text) (r : RemoteState) (w : WorldState)
    → lookup p w.remotes ≡ some r
    → lookup p (mark_remote_failed p reason w).remotes
      ≡ some (record r { status = RemoteStatus.failed reason })
unfolding mark_remote_failed
failed-lookup p reason r w e = rw lookup-update (rw (beq_self p) (rw e))

dispatch_transport-Attempted :
    (env : Env) (p : Text) (t : TransportConfig) (s : Connections)
    → Attempted env s.host_name p t (dispatch_transport env p t s).1
unfolding Attempted dispatch_transport try_connect_remote_sctp try_connect_remote_ssh
    set_remote_connecting1 send_connect_message attempt_error attempt_status
dispatch_transport-Attempted env p (sctp addr) s =
    let new = (set_remote_connecting1 env.now (env.new_id p) p (sctp addr) s.current_world).1 in
    let there = first_stage-lookup env.now (env.new_id p) p (sctp addr) s.current_world in
    elim (Option-cases (env.send_error addr)) [
      | inl sent ↦ rw (sent, send_connect_message, attempt_error) (_, there, refl, refl, refl)
      | inr (e, bad) ↦
          rw (bad, send_connect_message, attempt_error)
            (_, failed-lookup p (send_failed e) _ new there, refl, refl, refl)
    ]
dispatch_transport-Attempted env p (ssh_stdio ssh_host command projects) s =
    let new =
      (set_remote_connecting1 env.now (env.new_id p) p (ssh_stdio ssh_host command projects)
        s.current_world).1 in
    let there =
      first_stage-lookup env.now (env.new_id p) p (ssh_stdio ssh_host command projects)
        s.current_world in
    elim (Option-cases (env.cert_hash (envoy_name_of s.host_name))) [
      | inl bad ↦
          rw (bad, try_connect_remote_ssh, attempt_error)
            (_, failed-lookup p (no_cert env.cert_error) _ new there, refl, refl, refl)
      | inr (hash, good) ↦
          rw (good, try_connect_remote_ssh, attempt_error) (_, there, refl, refl, refl)
    ]

start_remote-Attempted :
    (env : Env) (p : Text) (t : TransportConfig) (s : Connections)
    → is_ready t s.current_world ≡ true
    → text_beq p s.host_id ≡ false
    → Attempted env s.host_name p t (start_remote env (p, t) s).1
unfolding start_remote try_connect_remote
start_remote-Attempted env p t s ready foreign =
    rw ready (rw foreign (dispatch_transport-Attempted env p t s))

Leaves-Attempted :
    (env : Env) (host_name p : Text) (t : TransportConfig) (s s' : Connections)
    → Leaves p s s'
    → Attempted env host_name p t s
    → Attempted env host_name p t s'
unfolding Attempted
Leaves-Attempted env host_name p t s s' l (q, there, id, transport, status) =
    (q, l.remote ∙ there, id, transport, status)

pub is_ready-same :
    (t : TransportConfig) (w w' : WorldState)
    → w'.signaling ≡ w.signaling
    → is_ready t w' ≡ is_ready t w
unfolding is_ready
is_ready-same (sctp addr) w w' e = rw e refl
is_ready-same (ssh_stdio ssh_host command projects) w w' e = refl

-- Turns for others, one for `p`, and turns for others again.
middle-Attempted :
    (env : Env) (p : Text) (t : TransportConfig) (xs ys : List (Text × TransportConfig))
    → All (λ x. text_beq x.0 p ≡ false) xs
    → All (λ x. text_beq x.0 p ≡ false) ys
    → (s : Connections) → is_ready t s.current_world ≡ true
    → text_beq p s.host_id ≡ false
    → Attempted env s.host_name p t (each (start_remote env) (xs ++ (p, t) ∷ ys) s).1
unfolding each
middle-Attempted env p t [] ys before after s ready foreign =
    Leaves-Attempted env s.host_name p t _ _
      (each-Leaves p (λ x. x.0) (start_remote env)
        (λ x s' other. start_remote-Leaves env p x.0 x.1 s' other) ys after
        (start_remote env (p, t) s).1)
      (start_remote-Attempted env p t s ready foreign)
middle-Attempted env p t (x ∷ xs) ys (other, before) after s ready foreign =
    let l = start_remote-Leaves env p x.0 x.1 s other in
    rw l.name at (
      middle-Attempted env p t xs ys before after (start_remote env x s).1
        (is_ready-same t _ _ l.signaling ∙ ready) (rw l.host foreign))

others_to_start :
    (now : ℕ) (p : Text) (current m : List (Text × RemoteState))
    → contains_key p m ≡ false
    → All (λ x. text_beq x.0 p ≡ false) (remotes_to_start now current m)
unfolding remotes_to_start contains_key
others_to_start now p current [] missing = tt
others_to_start now p current ((q, r) ∷ m) missing = elim (Bool-cases (text_beq q p)) [
  | inl same ↦ absurd (let h = rw same at missing in cc)
  | inr other ↦
      let rest = others_to_start now p current m (rw other at missing) in
      elim (Bool-cases (start_now now (lookup q current))) [
        | inl due ↦ rw due (other, rest)
        | inr early ↦ rw early rest
      ]
]

to_start-append :
    (now : ℕ) (p : Text) (r : RemoteState) (current before after : List (Text × RemoteState))
    → start_now now (lookup p current) ≡ true
    → remotes_to_start now current (before ++ (p, r) ∷ after)
      ≡ remotes_to_start now current before ++ (p, r.transport) ∷ remotes_to_start now current after
unfolding remotes_to_start
to_start-append now p r current [] after due = rw due refl
to_start-append now p r current ((q, q_state) ∷ before) after due =
    elim (Bool-cases (start_now now (lookup q current))) [
      | inl now_too ↦ rw now_too (
          ap (λ xs. (q, q_state.transport) ∷ xs) (to_start-append now p r current before after due))
      | inr early ↦ rw early (to_start-append now p r current before after due)
    ]

-- The first loop leaves the declared peers alone.
undeclared_others :
    (p : Text) (ideal m : List (Text × RemoteState))
    → contains_key p ideal ≡ true
    → All (λ q. text_beq q p ≡ false) (filter_keys (λ q _. not (contains_key q ideal)) m)
undeclared_others p ideal [] there = tt
undeclared_others p ideal ((q, r) ∷ m) there =
    let rest = undeclared_others p ideal m there in
    elim (Bool-cases (contains_key q ideal)) [
      | inl kept ↦ rw kept rest
      | inr closed ↦ rw closed (text_beq_comm p q (apart_by_key q p ideal there closed), rest)
    ]

close_remotes-Leaves :
    (p : Text) (s : Connections)
    → contains_key p s.ideal_world.remotes ≡ true
    → Leaves p s (close_remotes s).1
unfolding close_remotes pass undeclared_remotes
close_remotes-Leaves p s there =
    each-Leaves p (λ q. q) close_remote (λ q s' other. close_remote-Leaves p q s' other) _
      (undeclared_others p s.ideal_world.remotes s.current_world.remotes there) s

contains_key-middle :
    (p : Text) (r : RemoteState) (before after : List (Text × RemoteState))
    → contains_key p (before ++ (p, r) ∷ after) ≡ true
unfolding contains_key
contains_key-middle p r [] after = rw (beq_self p) refl
contains_key-middle p r ((q, q_state) ∷ before) after = elim (Bool-cases (text_beq q p)) [
  | inl same ↦ rw same refl
  | inr other ↦ rw other (contains_key-middle p r before after)
]

-- A declared peer that is due is tried by `fix_world_remotes`. Let `p` have one entry among the
-- declared ones, be another than this host, have no current entry or a pending one or one whose
-- time to retry has come, and let the signaling server of its transport be bound. Then its current
-- entry afterwards is that of a new attempt: its transport is the declared one, its id the new one,
-- and its status the first stage since now, or a failure with the error that the outside answered.
pub fix_world_remotes-tries :
    (env : Env) (p : Text) (r : RemoteState) (before after : List (Text × RemoteState))
    (s : Connections)
    → s.ideal_world.remotes ≡ before ++ (p, r) ∷ after
    → contains_key p before ≡ false
    → contains_key p after ≡ false
    → start_now env.now (lookup p s.current_world.remotes) ≡ true
    → is_ready r.transport s.current_world ≡ true
    → text_beq p s.host_id ≡ false
    → (q : RemoteState) × (lookup p (fix_world_remotes env s).1.current_world.remotes ≡ some q)
      × (q.connection_id ≡ env.new_id p)
      × (q.transport ≡ r.transport)
      × (q.status ≡ attempt_status env.now (attempt_error env s.host_name r.transport))
unfolding fix_world_remotes followed_by start_remotes pass peers_to_start Attempted
fix_world_remotes-tries env p r before after s declared only_before only_after due ready foreign =
    let l = close_remotes-Leaves p s (rw declared (contains_key-middle p r before after)) in
    let s' = (close_remotes s).1 in
    let current = s'.current_world.remotes in
    let subjects : remotes_to_start env.now current s'.ideal_world.remotes
        ≡ remotes_to_start env.now current before
          ++ (p, r.transport) ∷ remotes_to_start env.now current after =
      ap (remotes_to_start env.now current) (ap (λ w. w.remotes) l.ideal ∙ declared)
      ∙ to_start-append env.now p r current before after (rw l.remote due) in
    rw subjects (
      rw l.name at (
        middle-Attempted env p r.transport _ _
          (others_to_start env.now p current before only_before)
          (others_to_start env.now p current after only_after) s'
          (is_ready-same r.transport _ _ l.signaling ∙ ready) (rw l.host foreign)))
