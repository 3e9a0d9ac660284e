-- ===== src/World/Fix/Timeouts.antt =====
-- `fix_world_timeouts`: attempts that have taken too long (collab_mode/src/server.rs).
use collab_mode.Prelude.{
  ℕ, ◌-◌, ltb, Bool, false, Option, none, some, List, [], ◌∷◌, Text, codes, if◌then◌else◌,
}
use collab_mode.Map.{text_eq, lookup}
use collab_mode.World.{
  RemoteStatus, RemoteState, WorldState, from_secs, mark_remote_disconnected, mark_remote_failed,
}
use collab_mode.World.Pass.{Connections, Env, failed_to_connect, disconnect, Handled, pass}

-- `now.duration_since(since)`, which is 0 where `since` is later.
abbrev pub waited : ℕ → ℕ → ℕ
waited now since = now - since

-- The reason of a timeout.
unfoldable pub timed_out : ℕ → RemoteState → Option Text
timed_out now r = elim r.status [
  | RemoteStatus.connecting_stage1 since ↦
      (if ltb (from_secs 10) (waited now since) then some (codes "stage1 timeout") else none)
  | RemoteStatus.connecting_stage2 since ↦
      (if ltb (from_secs 30) (waited now since) then some (codes "stage2 timeout") else none)
  | _ ↦ none
]

unfoldable pub timeouts : ℕ → List (Text × RemoteState) → List (Text × Text)
unfolding timed_out
timeouts now [] = []
timeouts now ((peer, r) ∷ m) =
    let rest = timeouts now m in
    elim (timed_out now r) [ none ↦ rest | some reason ↦ (peer, reason) ∷ rest ]

abbrev pub ever_of : Option RemoteState → Bool
ever_of none = false
ever_of (some r) = r.ever_connected

-- Where an attempt has come to nothing: a peer that was connected before is tried again.
unfoldable pub give_up : ℕ → Text → Text → WorldState → WorldState
unfolding mark_remote_disconnected mark_remote_failed
give_up now peer reason world =
    if ever_of (lookup peer world.remotes)
    then mark_remote_disconnected now peer world
    else mark_remote_failed peer reason world

unfoldable pub time_out : ℕ → Text × Text → Connections → Handled
unfolding give_up
time_out now (peer, reason) s = (
  disconnect peer ∷ failed_to_connect peer reason ∷ [],
  record s { current_world = give_up now peer reason s.current_world },
)

unfoldable pub late_peers : Env → Connections → List (Text × Text)
unfolding timeouts
late_peers env s = timeouts env.now s.current_world.remotes

unfoldable pub fix_world_timeouts : Env → Connections → Handled
unfolding pass time_out late_peers
fix_world_timeouts env = pass (late_peers env) (time_out env.now)
