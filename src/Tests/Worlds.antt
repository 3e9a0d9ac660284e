-- ===== src/Tests/Worlds.antt =====
-- The theorems on the connections at concrete inputs.
use collab_mode.Prelude.{
  ℕ, ◌+◌, All, ◌≡◌, ◌≤◌, sym, true, refl, none, some, List, [], ◌∷◌, Text, codes, arith,
}
use collab_mode.Map.{text_eq, text_beq, text_beq_iff, lookup, contains_key, update, insert}
use collab_mode.Types.Ids.{id_hash, find}
use collab_mode.World.{
  sctp, SignalingStatus, RemoteStatus, RemoteState, WorldState, empty_world, from_secs,
  default_signaling,
}
use collab_mode.Signaling.{connect_msg}
use collab_mode.World.Fix.{Connections, Env, fix_world, fix_world_remotes, start_now, is_ready}
use collab_mode.World.Events.{
  any_hash, is_cert_trusted, handle_failed_to_connect, handle_connection_broke,
}
use collab_mode.World.Reach.{
  Event, run, tick, from_signaling, connect_notif, hey_msg, connection_broke_msg,
  update_config_request, run-Sane,
}
use collab_mode.World.Invariant.{Sane}
use collab_mode.World.Declared.{fix_world_remotes-undeclared}
use collab_mode.World.Deadline.{stage_of, fix_world-stages}
use collab_mode.World.Attempt.{attempt_error, attempt_status, fix_world_remotes-tries}
use collab_mode.World.Messages.{lost, handle_connection_lost-lookup}
use collab_mode.World.Trust.{IssuesOnly, run-is_cert_trusted}

abbrev pub addr : Text
addr = codes "wss://signal"

abbrev pub bob : Text
bob = codes "bob::AB"

abbrev pub carol : Text
carol = codes "carol::CD"

abbrev remote : RemoteStatus → ℕ → RemoteState
remote status id = record {
  transport = sctp addr;
  status = status;
  ever_connected = true;
  retry_stride_secs = 1;
  connection_id = id;
}

abbrev pub env_at : ℕ → Env
env_at now = record {
  now = now;
  epoch_secs = 100;
  new_id = λ peer. 77;
  bind_error = λ a. none;
  send_error = λ a. none;
  cert_hash = λ name. none;
  cert_error = codes "no certificate";
}

abbrev world : List (Text × RemoteState) → WorldState
world remotes = record {
  signaling = (addr, default_signaling SignalingStatus.bound) ∷ [];
  remotes = remotes;
  trusted = bob ∷ [];
}

-- `bob` is declared and connected, `carol` is connected only.
abbrev pub home : Connections
home = record {
  host_id = codes "alice::EF";
  host_name = codes "alice";
  ideal_world = world ((bob, remote RemoteStatus.connected 1) ∷ []);
  current_world =
      world
        ((carol, remote RemoteStatus.connected 3) ∷ (bob, remote RemoteStatus.connected 2) ∷ []);
  local_trusted_hosts = [];
}

fix_world_remotes-undeclared_example :
    lookup carol (fix_world_remotes (env_at 5) home).1.current_world.remotes ≡ none
unfolding contains_key text_beq
fix_world_remotes-undeclared_example = fix_world_remotes-undeclared (env_at 5) carol home refl

-- `bob` is in the first stage since 5.
abbrev pub waiting : Connections
waiting = record home {
  current_world = world ((bob, remote (RemoteStatus.connecting_stage1 5) 2) ∷ []);
}

fix_world-stages_example : 10 ≤ 5 + from_secs 10
unfolding stage_of lookup text_beq fix_world fix_world_remotes contains_key
fix_world-stages_example =
    fix_world-stages (env_at 10) waiting bob (remote (RemoteStatus.connecting_stage1 5) 2) 5 10 refl
      refl

-- The connection to `bob` broke and is to be tried again at 9.
abbrev broken : Connections
broken = record home {
  current_world = world ((bob, remote (RemoteStatus.disconnected 9 1) 2) ∷ []);
}

fix_world_remotes-tries_example :
    (q : RemoteState) × (lookup bob (fix_world_remotes (env_at 9) broken).1.current_world.remotes
      ≡ some q)
    × (q.connection_id ≡ 77)
    × (q.transport ≡ sctp addr)
    × (q.status ≡ RemoteStatus.connecting_stage1 9)
unfolding contains_key start_now lookup text_beq is_ready attempt_status attempt_error
fix_world_remotes-tries_example =
    fix_world_remotes-tries (env_at 9) bob (remote RemoteStatus.connected 1) [] [] broken refl refl
      refl refl refl refl

handle_connection_lost-lookup_example :
    (lookup bob (handle_failed_to_connect 4 bob (codes "refused") 2 home).1.current_world.remotes
      ≡ some (record (remote (RemoteStatus.disconnected (4 + from_secs 1) 1) 2) {
        retry_stride_secs = 2;
      }))
    × (lookup bob (handle_connection_broke 4 bob 2 home).1.current_world.remotes
        ≡ some (record (remote (RemoteStatus.disconnected (4 + from_secs 1) 1) 2) {
          retry_stride_secs = 2;
        }))
unfolding lookup text_beq lost
handle_connection_lost-lookup_example =
    handle_connection_lost-lookup 4 bob (codes "refused") 2 home bob

abbrev messages : List Event
messages =
    connect_notif 8 bob (sctp addr)
    ∷ tick (env_at 9)
    ∷ from_signaling (env_at 10) 4 addr (connect_msg bob (codes "alice::EF") true)
    ∷ from_signaling (env_at 10) 5 addr (connect_msg carol (codes "alice::EF") true)
    ∷ hey_msg bob
    ∷ connection_broke_msg 12 bob 77
    ∷ update_config_request (bob ∷ [])
    ∷ []

abbrev started : Connections
started = record home { current_world = empty_world }

run-Sane_example : Sane (run messages started).current_world
run-Sane_example = run-Sane messages started refl

only_bob : (h : Text) → is_cert_trusted h started ≡ true → h ≡ codes "AB"
unfolding is_cert_trusted id_hash find
only_bob h accepted = sym ((text_beq_iff (codes "AB") h).0 (ground arith))

bob_only : (h : Text) → any_hash h (bob ∷ []) ≡ true → h ≡ codes "AB"
unfolding id_hash find
bob_only h accepted = sym ((text_beq_iff (codes "AB") h).0 (ground arith))

only_ab : All (IssuesOnly (λ h. h ≡ codes "AB")) messages
unfolding IssuesOnly
only_ab = (tt, ((λ name hash e. absurd (cc)), (tt, (tt, (tt, (tt, (bob_only, tt)))))))

run-is_cert_trusted_example : codes "AB" ≡ codes "AB"
unfolding run is_cert_trusted id_hash find lookup update contains_key insert text_beq
run-is_cert_trusted_example =
    run-is_cert_trusted (λ h. h ≡ codes "AB") messages started (codes "AB") only_ab only_bob refl
