-- ===== src/World/Pass.antt =====
-- The state of the connections, what the outside answers and gets, and how the passes over the
-- connections run (collab_mode/src/server.rs). What goes out is a list of effects beside the state.
use collab_mode.Prelude.{
  ℕ, Bool, true, false, ◌&&◌, Option, List, [], ◌∷◌, ◌++◌, Text, if◌then◌else◌,
}
use collab_mode.Map.{text_eq, text_beq}
use collab_mode.Signaling.{SignalingMsg}
use collab_mode.World.{ConfigProject, WorldState}

-- The fields of `Server` that the connections live in.
pub record Connections : Type 0 where
  pub host_id : Text
  pub host_name : Text
  pub ideal_world : WorldState
  pub current_world : WorldState
  pub local_trusted_hosts : List Text

-- What the outside answers in one pass: the clocks, the random ids, the errors of `bind` and of
-- `send`, and the certificate made for an envoy, or the error.
pub record Env : Type 0 where
  pub now : ℕ
  pub epoch_secs : ℕ
  pub new_id : Text → ℕ
  pub bind_error : Text → Option Text
  pub send_error : Text → Option Text
  pub cert_hash : Text → Option Text
  pub cert_error : Text

-- Notifications to the editor, messages to the main loop, and calls of the two channels.
pub data Effect : Type 0 where
  connecting : Text → Effect
  failed_to_connect : Text → Text → Effect
  connection_broke : Text → Text → Effect
  connection_progress : Text → Effect
  accept_stopped : Text → Effect
  accepting_connection : Text → Effect
  already_connected : Text → Effect
  connected : Text → Effect
  remote_left : Text → Effect
  permission_denied : Text → Effect
  network_error : Text → Effect
  signaling_error : Text → Effect
  bind_failed : Text → Effect
  stopped_accepting : Text → Effect
  self_failed : Text → ℕ → Effect
  fix_world_next : Effect
  save_trusted : List Text → Effect
  disconnect : Text → Effect
  start_connect_ssh : Text → ℕ → Text → List Text → List ConfigProject → Effect
  start_connect_sock : Text → ℕ → Text → Effect
  signaling_remove : Text → Effect
  bind : Text → List Text → Effect
  send : Text → SignalingMsg → Effect

-- A handler's effects, and the state it leaves.
abbrev pub Handled : Type 0
Handled = List Effect × Connections

-- A loop whose body goes from state to state.
unfoldable pub each {ℓ} :
    {A : Type ℓ} → (A → Connections → Handled) → List A → Connections → Handled
each f [] s = ([], s)
each f (a ∷ others) s =
    let (out, s') = f a s in let (rest, s'') = each f others s' in (out ++ rest, s'')

-- One pass: its subjects are collected first, then the body runs for each.
unfoldable pub pass :
    {A : Type 0} → (Connections → List A) → (A → Connections → Handled) → Connections → Handled
unfolding each
pass select body s = each body (select s) s

unfoldable pub followed_by :
    (Connections → Handled) → (Connections → Handled) → Connections → Handled
followed_by f g s = let (out, s') = f s in let (out', s'') = g s' in (out ++ out', s'')

abbrev pub filter_keys {ℓ} : {V : Type ℓ} → (Text → V → Bool) → List (Text × V) → List Text
filter_keys p [] = []
filter_keys p ((k, v) ∷ m) = if p k v then k ∷ filter_keys p m else filter_keys p m

abbrev pub text_contains : List Text → Text → Bool
text_contains [] t = false
text_contains (s ∷ ss) t = if text_beq s t then true else text_contains ss t

-- `HashSet::insert`
abbrev pub set_insert : Text → List Text → List Text
set_insert t ss = if text_contains ss t then ss else ss ++ t ∷ []

abbrev pub text_subset : List Text → List Text → Bool
text_subset [] us = true
text_subset (t ∷ ts) us = text_contains us t && text_subset ts us
