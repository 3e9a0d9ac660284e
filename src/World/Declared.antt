-- ===== src/World/Declared.antt =====
-- `fix_world_remotes` and the declared peers: what one turn of its loops leaves alone, and that no
-- peer stays connected that is not declared.
use collab_mode.Prelude.{
  ℕ, ◌≡◌, inl, inr, refl, ◌∙◌, Bool, true, false, Bool-cases, Option-cases, none, List, [], ◌∷◌,
  Text, All,
}
use collab_mode.Map.{text_eq, text_beq, text_beq_iff, lookup, contains_key}
use collab_mode.Map.Laws.{beq_self, lookup-insert, lookup-remove, lookup-update}
use collab_mode.World.{
  TransportConfig, sctp, ssh_stdio, RemoteState, set_remote, set_remote_connecting1,
  set_remote_pending, mark_remote_failed, remove_remote,
}
use collab_mode.World.Fix.{
  Connections, Env, Handled, each, pass, close_remote, close_remotes, undeclared_remotes,
  filter_keys, start_now, remotes_to_start, peers_to_start, is_ready, start_remote, start_remotes,
  send_connect_message, try_connect_remote, try_connect_remote_sctp, try_connect_remote_ssh,
  dispatch_transport, envoy_name_of, followed_by, fix_world_remotes,
}

-- A turn that concerns another peer than `p`.
pub record Leaves (p : Text) (s s' : Connections) : Type 0 where
  pub remote : lookup p s'.current_world.remotes ≡ lookup p s.current_world.remotes
  pub signaling : s'.current_world.signaling ≡ s.current_world.signaling
  pub ideal : s'.ideal_world ≡ s.ideal_world
  pub host : s'.host_id ≡ s.host_id
  pub name : s'.host_name ≡ s.host_name

nothing-Leaves : (p : Text) (s : Connections) → Leaves p s s
nothing-Leaves p s = record {
  remote = refl;
  signaling = refl;
  ideal = refl;
  host = refl;
  name = refl;
}

Leaves-trans : {p : Text} {s t u : Connections} → Leaves p s t → Leaves p t u → Leaves p s u
Leaves-trans a b = record {
  remote = b.remote ∙ a.remote;
  signaling = b.signaling ∙ a.signaling;
  ideal = b.ideal ∙ a.ideal;
  host = b.host ∙ a.host;
  name = b.name ∙ a.name;
}

module _ (p q : Text) (s : Connections) (other : text_beq q p ≡ false) where
  set_remote-Leaves :
      (r : RemoteState) → Leaves p s (record s { current_world = set_remote q r s.current_world })
  set_remote-Leaves r = record {
    remote = rw lookup-insert (rw other refl);
    signaling = refl;
    ideal = refl;
    host = refl;
    name = refl;
  }

  failed-Leaves :
      (reason : Text)
      → Leaves p s (record s { current_world = mark_remote_failed q reason s.current_world })
  unfolding mark_remote_failed
  failed-Leaves reason = record {
    remote = rw lookup-update (rw other refl);
    signaling = refl;
    ideal = refl;
    host = refl;
    name = refl;
  }

  pub close_remote-Leaves : Leaves p s (close_remote q s).1
  unfolding close_remote remove_remote
  close_remote-Leaves = record {
    remote = rw lookup-remove (rw other refl);
    signaling = refl;
    ideal = refl;
    host = refl;
    name = refl;
  }

  send_connect_message-Leaves :
      (env : Env) (addr : Text) (initiator : Bool)
      → Leaves p s (send_connect_message env q addr initiator s).1
  unfolding send_connect_message
  send_connect_message-Leaves env addr initiator = elim (Option-cases (env.send_error addr)) [
    | inl sent ↦ rw (sent, send_connect_message) (nothing-Leaves p s)
    | inr (e, bad) ↦ rw (bad, send_connect_message) (failed-Leaves _)
  ]

dispatch_transport-Leaves :
    (env : Env) (p q : Text) (t : TransportConfig) (s : Connections)
    → text_beq q p ≡ false
    → Leaves p s (dispatch_transport env q t s).1
unfolding dispatch_transport try_connect_remote_sctp try_connect_remote_ssh set_remote_connecting1
dispatch_transport-Leaves env p q (sctp addr) s other =
    Leaves-trans (set_remote-Leaves p q s other _)
      (send_connect_message-Leaves p q _ other env addr true)
dispatch_transport-Leaves env p q (ssh_stdio ssh_host command projects) s other =
    let first = set_remote-Leaves p q s other _ in
    elim (Option-cases (env.cert_hash (envoy_name_of s.host_name))) [
      | inl bad ↦
          rw (bad, try_connect_remote_ssh) (Leaves-trans first (failed-Leaves p q _ other _))
      | inr (hash, good) ↦
          rw (good, try_connect_remote_ssh)
            (record {
              remote = first.remote;
              signaling = refl;
              ideal = refl;
              host = refl;
              name = refl;
            })
    ]

pub start_remote-Leaves :
    (env : Env) (p q : Text) (t : TransportConfig) (s : Connections)
    → text_beq q p ≡ false
    → Leaves p s (start_remote env (q, t) s).1
unfolding start_remote try_connect_remote set_remote_pending
start_remote-Leaves env p q t s other = elim (Bool-cases (is_ready t s.current_world)) [
  | inl ready ↦ elim (Bool-cases (text_beq q s.host_id)) [
    | inl own ↦ rw ready (rw own (nothing-Leaves p s))
    | inr foreign ↦ rw ready (rw foreign (dispatch_transport-Leaves env p q t s other))
  ]
  | inr waiting ↦ rw waiting (set_remote-Leaves p q s other _)
]

-- A loop none of whose subjects is `p`.
pub each-Leaves :
    {A : Type 0} (p : Text) (key : A → Text) (f : A → Connections → Handled)
    → ((a : A) (s : Connections) → text_beq (key a) p ≡ false → Leaves p s (f a s).1)
    → (xs : List A) → All (λ a. text_beq (key a) p ≡ false) xs
    → (s : Connections) → Leaves p s (each f xs s).1
unfolding each
each-Leaves p key f leaves [] others s = nothing-Leaves p s
each-Leaves p key f leaves (x ∷ xs) (other, others) s =
    Leaves-trans (leaves x s other) (each-Leaves p key f leaves xs others (f x s).1)

-- Keys that are contained in a map, and one that is not, differ.
pub apart_by_key {ℓ} :
    {V : Type ℓ} (p q : Text) (m : List (Text × V))
    → contains_key q m ≡ true
    → contains_key p m ≡ false
    → text_beq q p ≡ false
apart_by_key p q m there missing = elim (Bool-cases (text_beq q p)) [
  | inl same ↦
      let e : q ≡ p = (text_beq_iff q p).0 same in
      let there' : contains_key p m ≡ true = rw e at there in absurd (cc)
  | inr differ ↦ differ
]

pub text_beq_comm : (p q : Text) → text_beq p q ≡ false → text_beq q p ≡ false
text_beq_comm p q h = elim (Bool-cases (text_beq q p)) [
  | inl same ↦
      let e : q ≡ p = (text_beq_iff q p).0 same in
      let self = beq_self p in let h' : text_beq p p ≡ false = rw e at h in absurd (cc)
  | inr differ ↦ differ
]

-- Every peer that is started is declared.
started_declared :
    (now : ℕ) (current m all : List (Text × RemoteState))
    → ((q : Text) → contains_key q m ≡ true → contains_key q all ≡ true)
    → All (λ x. contains_key x.0 all ≡ true) (remotes_to_start now current m)
unfolding remotes_to_start contains_key
started_declared now current [] all within = tt
started_declared now current ((q, r) ∷ m) all within =
    let rest = started_declared now current m all (λ q' h.
      within q'
        (elim (Bool-cases (text_beq q q')) [ inl same ↦ rw same refl | inr other ↦ rw other h ])) in
    elim (Bool-cases (start_now now (lookup q current))) [
      | inl good ↦ rw good (within q (rw (beq_self q) refl), rest)
      | inr bad ↦ rw bad rest
    ]

-- The first loop: once `p` is gone it stays away, and it goes where it is among the subjects.
closed_stays :
    (p : Text) (xs : List Text) (s : Connections)
    → lookup p s.current_world.remotes ≡ none
    → lookup p (each close_remote xs s).1.current_world.remotes ≡ none
unfolding each close_remote remove_remote
closed_stays p [] s gone = gone
closed_stays p (x ∷ xs) s gone = closed_stays p xs (close_remote x s).1 (
    rw lookup-remove
      (elim (Bool-cases (text_beq x p)) [ inl same ↦ rw same refl | inr other ↦ rw other gone ]))

closed_by :
    (p : Text) (missing : Text → RemoteState → Bool) (m : List (Text × RemoteState))
    → ((r : RemoteState) → missing p r ≡ true)
    → (s : Connections) → (lookup p m ≡ none → lookup p s.current_world.remotes ≡ none)
    → lookup p (each close_remote (filter_keys missing m) s).1.current_world.remotes ≡ none
unfolding each close_remote remove_remote lookup
closed_by p missing [] always s gone = gone refl
closed_by p missing ((q, r) ∷ m) always s gone = elim (Bool-cases (text_beq q p)) [
  | inl same ↦
      let e : q ≡ p = (text_beq_iff q p).0 same in
      let good : missing q r ≡ true = rw e (always r) in
      rw good (
        closed_stays p (filter_keys missing m) (close_remote q s).1
          (rw lookup-remove (rw same refl)))
  | inr other ↦
      let gone' : lookup p m ≡ none → lookup p s.current_world.remotes ≡ none =
        λ h. gone (rw other h) in
      elim (Bool-cases (missing q r)) [
        | inl good ↦ rw good (
            closed_by p missing m always (close_remote q s).1
              (λ h. rw lookup-remove (rw other (gone' h))))
        | inr bad ↦ rw bad (closed_by p missing m always s gone')
      ]
]

close_remotes-ideal :
    (xs : List Text) (s : Connections) → (each close_remote xs s).1.ideal_world ≡ s.ideal_world
unfolding each close_remote
close_remotes-ideal [] s = refl
close_remotes-ideal (x ∷ xs) s = close_remotes-ideal xs (close_remote x s).1

apart-All :
    (p : Text) (all : List (Text × RemoteState))
    → contains_key p all ≡ false
    → (xs : List (Text × TransportConfig)) → All (λ x. contains_key x.0 all ≡ true) xs
    → All (λ x. text_beq x.0 p ≡ false) xs
apart-All p all missing [] declared = tt
apart-All p all missing ((q, t) ∷ xs) (there, declared) =
    (apart_by_key p q all there missing, apart-All p all missing xs declared)

-- A peer that is not declared has no connection after `fix_world_remotes`, whatever it had before.
pub fix_world_remotes-undeclared :
    (env : Env) (p : Text) (s : Connections)
    → contains_key p s.ideal_world.remotes ≡ false
    → lookup p (fix_world_remotes env s).1.current_world.remotes ≡ none
unfolding fix_world_remotes followed_by close_remotes start_remotes pass undeclared_remotes
    peers_to_start
fix_world_remotes-undeclared env p s undeclared =
    let closed = each close_remote (undeclared_remotes s) s in
    let gone : lookup p closed.1.current_world.remotes ≡ none =
      unfold undeclared_remotes in
      closed_by p _ s.current_world.remotes (λ r. rw undeclared refl) s (λ h. h) in
    let ideal : closed.1.ideal_world ≡ s.ideal_world =
      close_remotes-ideal (undeclared_remotes s) s in
    let others =
      apart-All p s.ideal_world.remotes undeclared
        (remotes_to_start env.now closed.1.current_world.remotes closed.1.ideal_world.remotes)
        (rw ideal (
          started_declared env.now closed.1.current_world.remotes s.ideal_world.remotes
            s.ideal_world.remotes (λ q h. h))) in
    (each-Leaves p (λ x. x.0) (start_remote env)
      (λ x s' other. start_remote-Leaves env p x.0 x.1 s' other) _ others closed.1).remote
    ∙ gone
