-- ===== src/World/Messages.antt =====
-- The messages on one connection: its loss, and the farewell of the peer.
use mathlib.Core.Option
use mathlib.Core.List.{◌++◌}
use collab_mode.Prelude.{
  ℕ, ◌+◌, ◌*◌, ◌==◌, min, ◌≡◌, inl, inr, refl, sym, not, ◌∙◌, true, false, Bool-cases, Option-cases,
  none, some, List, ◌∷◌, arith, Text, codes, if◌then◌else◌,
}
use collab_mode.Map.{text_eq, text_beq, text_beq_iff, lookup, contains_key}
use collab_mode.Map.Laws.{beq_self, lookup-update, lookup-remove}
use collab_mode.World.{
  RemoteStatus, RemoteState, WorldState, next_stride, is_stale_connection_attempt,
  mark_remote_disconnected, mark_remote_failed, remove_remote,
}
use collab_mode.World.Fix.{
  Connections, Env, start_now, is_ready, give_up, ever_of, fix_world_remotes,
}
use collab_mode.World.Events.{
  lose_connection, handle_failed_to_connect, handle_connection_broke, handle_bye,
}
use collab_mode.World.Attempt.{
  attempt_error, attempt_status, fix_world_remotes-tries, is_ready-same,
}

-- What the loss of the connection `id` means for an entry.
unfoldable pub lost : ℕ → Text → ℕ → RemoteState → RemoteState
lost now reason id r =
    if r.connection_id == id
    then (if r.ever_connected
        then record r {
          status =
              RemoteStatus.disconnected (now + r.retry_stride_secs * 1000000000)
                r.retry_stride_secs;
          retry_stride_secs = min (2 * r.retry_stride_secs) 60;
        }
        else record r { status = RemoteStatus.failed reason })
    else r

stride_twice : (n : ℕ) → next_stride n ≡ min (2 * n) 60
unfolding next_stride
stride_twice n = omega arith

-- The entry of `q` where the entry of `p` is given up.
give_up-lookup :
    (now : ℕ) (p reason : Text) (id : ℕ) (w : WorldState) (q : Text) (r : RemoteState)
    → lookup p w.remotes ≡ some r
    → (r.connection_id == id) ≡ true
    → lookup q (give_up now p reason w).remotes ≡ (
        if text_beq p q
        then Option.map (lost now reason id) (lookup q w.remotes)
        else lookup q w.remotes)
unfolding give_up mark_remote_disconnected mark_remote_failed lost
give_up-lookup now p reason id w q r found current = elim (Bool-cases (text_beq p q)) [
  | inr other ↦ elim (Bool-cases (ever_of (lookup p w.remotes))) [
    | inl ever ↦ rw ever (rw lookup-update (rw other refl))
    | inr never ↦ rw never (rw lookup-update (rw other refl))
  ]
  | inl same ↦
      let e : p ≡ q = (text_beq_iff p q).0 same in
      let found' : lookup q w.remotes ≡ some r = rw e at found in
      elim (Bool-cases r.ever_connected) [
        | inl ever ↦
            let ever' : ever_of (lookup p w.remotes) ≡ true = rw found ever in
            rw ever' (
              rw lookup-update
                (rw same (rw found' (rw (current, lost) (rw ever (rw stride_twice refl))))))
        | inr never ↦
            let never' : ever_of (lookup p w.remotes) ≡ false = rw found never in
            rw never' (rw lookup-update (rw same (rw found' (rw (current, lost) (rw never refl)))))
      ]
]

module _ (w : WorldState) (p : Text) (id : ℕ) where
  missing_stale : lookup p w.remotes ≡ none → is_stale_connection_attempt w p id ≡ true
  unfolding is_stale_connection_attempt
  missing_stale e = rw (e, is_stale_connection_attempt) refl

  found_stale :
      (r : RemoteState)
      → lookup p w.remotes ≡ some r
      → is_stale_connection_attempt w p id ≡ not (r.connection_id == id)
  unfolding is_stale_connection_attempt
  found_stale r e = rw (e, is_stale_connection_attempt) refl

-- What a stale message leaves, in the words of `lost`.
unchanged :
    (now : ℕ) (p reason : Text) (id : ℕ) (m : List (Text × RemoteState)) (q : Text)
    → Option.map (lost now reason id) (lookup p m) ≡ lookup p m
    → lookup q m
      ≡ (if text_beq p q then Option.map (lost now reason id) (lookup q m) else lookup q m)
unchanged now p reason id m q same_entry = elim (Bool-cases (text_beq p q)) [
  | inr other ↦ rw other refl
  | inl same ↦
      let e : p ≡ q = (text_beq_iff p q).0 same in
      let there : Option.map (lost now reason id) (lookup q m) ≡ lookup q m = rw e at same_entry in
      rw same (sym there)
]

lose_connection-lookup :
    (now : ℕ) (p failure reason : Text) (id : ℕ) (s : Connections) (q : Text)
    → lookup q (lose_connection now p failure reason id s).1.current_world.remotes ≡ (
        if text_beq p q
        then Option.map (lost now failure id) (lookup q s.current_world.remotes)
        else lookup q s.current_world.remotes)
unfolding lose_connection
lose_connection-lookup now p failure reason id s q =
    let w = s.current_world in
    elim (Option-cases (lookup p w.remotes)) [
      | inl missing ↦
          rw (missing_stale w p id missing)
            (unchanged now p failure id w.remotes q (rw missing refl))
      | inr (r, found) ↦ elim (Bool-cases (r.connection_id == id)) [
        | inl current ↦
            let fresh : is_stale_connection_attempt w p id ≡ false =
              found_stale w p id r found ∙ (rw current refl) in
            rw fresh (give_up-lookup now p failure id w q r found current)
        | inr other ↦
            let stale : is_stale_connection_attempt w p id ≡ true =
              found_stale w p id r found ∙ (rw other refl) in
            rw stale
              (unchanged now p failure id w.remotes q (rw found (unfold lost in rw other refl)))
      ]
    ]

-- The loss of the connection `id` to `p` changes the current entry of `p` alone, and only where it
-- has that id: then the entry is to be tried again after its stride, which doubles up to 60, where
-- the peer was ever connected, and is failed otherwise. A message about an attempt that a newer one
-- has replaced changes nothing. The reason of a failure is the message's own in
-- `FailedToConnect`, and that the connection broke too early in `ConnectionBroke`.
pub handle_connection_lost-lookup :
    (now : ℕ) (p reason : Text) (id : ℕ) (s : Connections) (q : Text)
    → let old = lookup q s.current_world.remotes in
      (lookup q (handle_failed_to_connect now p reason id s).1.current_world.remotes
        ≡ (if text_beq p q then Option.map (lost now reason id) old else old))
      × (lookup q (handle_connection_broke now p id s).1.current_world.remotes ≡ (
          if text_beq p q
          then Option.map (lost now (codes "broke before reaching Connected") id) old
          else old))
unfolding handle_failed_to_connect handle_connection_broke
handle_connection_lost-lookup now p reason id s q =
    (lose_connection-lookup now p _ _ id s q, lose_connection-lookup now p _ _ id s q)

-- A declared peer is tried again by the first `fix_world_remotes` after it said `Bye`, where the
-- signaling server of its transport is bound: its entry is then that of a new attempt.
pub handle_bye-tries :
    (env : Env) (p : Text) (r : RemoteState) (before after : List (Text × RemoteState))
    (s : Connections)
    → s.ideal_world.remotes ≡ before ++ (p, r) ∷ after
    → contains_key p before ≡ false
    → contains_key p after ≡ false
    → is_ready r.transport s.current_world ≡ true
    → text_beq p s.host_id ≡ false
    → (q : RemoteState) × (lookup p
          (fix_world_remotes env (handle_bye p s).1).1.current_world.remotes
        ≡ some q)
      × (q.connection_id ≡ env.new_id p)
      × (q.transport ≡ r.transport)
      × (q.status ≡ attempt_status env.now (attempt_error env s.host_name r.transport))
unfolding handle_bye remove_remote
handle_bye-tries env p r before after s declared only_before only_after ready foreign =
    let gone : lookup p (handle_bye p s).1.current_world.remotes ≡ none =
      rw lookup-remove (rw (beq_self p) refl) in
    fix_world_remotes-tries env p r before after (handle_bye p s).1 declared only_before only_after
      (rw gone (unfold start_now in refl)) (is_ready-same r.transport _ _ refl ∙ ready) foreign
