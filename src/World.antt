-- ===== src/World.antt =====
-- The state of the connections: `WorldState` and its operations (collab_mode/src/server.rs).
-- An `Instant` is a number of nanoseconds; the time and each new random id are arguments.
pub mod Pass
pub mod Fix
pub mod Events
pub mod Setup
pub mod Stride
pub mod Invariant
pub mod Reach
pub mod Declared
pub mod Deadline
pub mod Attempt
pub mod Messages
pub mod Trust
pub mod Answered
pub mod Keeps
use collab_mode.Prelude.{
  ℕ, ◌+◌, ◌*◌, ◌^◌, ◌==◌, min, Bool, true, false, not, Option, none, some, List, [], ◌∷◌, ◌++◌,
  Text, if◌then◌else◌,
}
use collab_mode.Map
use collab_mode.Map.{text_eq, lookup, insert, remove, update, contains_key}

pub record ConfigProject : Type 0 where
  pub name : Text
  pub path : Text

pub data TransportConfig : Type 0 where
  sctp : Text → TransportConfig
  ssh_stdio : Text → List Text → List ConfigProject → TransportConfig

-- The failed ones carry the reason, the disconnected ones the time of the retry and the stride.
pub data SignalingStatus : Type 0 where
  pending : SignalingStatus
  binding : ℕ → SignalingStatus
  bound : SignalingStatus
  disconnected : ℕ → ℕ → SignalingStatus
  failed : Text → SignalingStatus

pub record SignalingState : Type 0 where
  pub status : SignalingStatus
  pub trusted : List Text
  pub trust_sent_at : Option ℕ
  pub retry_stride_secs : ℕ

pub data RemoteStatus : Type 0 where
  pending : RemoteStatus
  connecting_stage1 : ℕ → RemoteStatus
  connecting_stage2 : ℕ → RemoteStatus
  connected : RemoteStatus
  disconnected : ℕ → ℕ → RemoteStatus
  failed : Text → RemoteStatus

pub record RemoteState : Type 0 where
  pub transport : TransportConfig
  pub status : RemoteStatus
  pub ever_connected : Bool
  pub retry_stride_secs : ℕ
  pub connection_id : ℕ

pub record WorldState : Type 0 where
  pub signaling : List (Text × SignalingState)
  pub remotes : List (Text × RemoteState)
  pub trusted : List Text

abbrev pub empty_world : WorldState
empty_world = record { signaling = []; remotes = []; trusted = [] }

-- `Duration::from_secs`
abbrev pub from_secs : ℕ → ℕ
from_secs n = n * 1000000000

abbrev pub initial_retry_stride_secs : ℕ
initial_retry_stride_secs = 1

abbrev pub max_retry_stride_secs : ℕ
max_retry_stride_secs = 60

abbrev pub u64_max : ℕ
u64_max = 18446744073709551615

unfoldable pub next_stride : ℕ → ℕ
next_stride cur = min (min (cur * 2) u64_max) max_retry_stride_secs

-- Whether the message is of another attempt than the current one.
unfoldable pub is_stale_connection_attempt : WorldState → Text → ℕ → Bool
is_stale_connection_attempt world peer msg_connection_id = elim (lookup peer world.remotes) [
  | none ↦ true
  | some r ↦ not (r.connection_id == msg_connection_id)
]

-- What a new entry takes over from an old one.
abbrev pub history_of : Option RemoteState → Bool × ℕ
history_of none = (false, initial_retry_stride_secs)
history_of (some r) = (r.ever_connected, r.retry_stride_secs)

abbrev pub set_remote : Text → RemoteState → WorldState → WorldState
set_remote peer r world = record world { remotes = insert peer r world.remotes }

unfoldable pub set_remote_connecting1 : ℕ → ℕ → Text → TransportConfig → WorldState → ℕ × WorldState
set_remote_connecting1 now new_id peer transport world =
    let (ever, stride) = history_of (lookup peer world.remotes) in
    (
      new_id,
      set_remote peer
          (record {
            transport = transport;
            status = RemoteStatus.connecting_stage1 now;
            ever_connected = ever;
            retry_stride_secs = stride;
            connection_id = new_id;
          })
          world,
    )

unfoldable pub set_remote_connecting2 : ℕ → ℕ → Text → TransportConfig → WorldState → ℕ × WorldState
set_remote_connecting2 now new_id peer transport world =
    let (ever, stride) = history_of (lookup peer world.remotes) in
    (
      new_id,
      set_remote peer
          (record {
            transport = transport;
            status = RemoteStatus.connecting_stage2 now;
            ever_connected = ever;
            retry_stride_secs = stride;
            connection_id = new_id;
          })
          world,
    )

abbrev pub id_or : ℕ → Option RemoteState → ℕ
id_or new_id none = new_id
id_or new_id (some r) = r.connection_id

unfoldable pub set_remote_pending : ℕ → Text → TransportConfig → WorldState → WorldState
set_remote_pending new_id peer transport world =
    let (ever, stride) = history_of (lookup peer world.remotes) in
    set_remote peer
      (record {
        transport = transport;
        status = RemoteStatus.pending;
        ever_connected = ever;
        retry_stride_secs = stride;
        connection_id = id_or new_id (lookup peer world.remotes);
      })
      world

abbrev pub update_remote : Text → (RemoteState → RemoteState) → WorldState → WorldState
update_remote peer f world = record world { remotes = update peer f world.remotes }

unfoldable pub mark_remote_connected : Text → WorldState → WorldState
mark_remote_connected peer = update_remote peer λ r. record r {
  status = RemoteStatus.connected;
  ever_connected = true;
  retry_stride_secs = initial_retry_stride_secs;
}

unfoldable pub mark_remote_disconnected : ℕ → Text → WorldState → WorldState
unfolding next_stride
mark_remote_disconnected now peer = update_remote peer λ r. record r {
  status = RemoteStatus.disconnected (now + from_secs r.retry_stride_secs) r.retry_stride_secs;
  retry_stride_secs = next_stride r.retry_stride_secs;
}

unfoldable pub mark_remote_failed : Text → Text → WorldState → WorldState
mark_remote_failed peer reason =
    update_remote peer λ r. record r { status = RemoteStatus.failed reason }

unfoldable pub remove_remote : Text → WorldState → WorldState
remove_remote peer world = record world { remotes = remove peer world.remotes }

-- `SignalingState` with a status and the defaults.
abbrev pub default_signaling : SignalingStatus → SignalingState
default_signaling status = record {
  status = status;
  trusted = [];
  trust_sent_at = none;
  retry_stride_secs = 0;
}

-- `entry(addr).and_modify(f).or_insert_with(default)`
abbrev pub modify_or_insert :
    Text → (SignalingState → SignalingState) → SignalingState → WorldState → WorldState
modify_or_insert addr f default world = record world {
  signaling =
      if contains_key addr world.signaling
      then update addr f world.signaling
      else insert addr default world.signaling;
}

unfoldable pub set_signaling_binding : ℕ → Text → WorldState → WorldState
set_signaling_binding now addr =
    modify_or_insert addr (λ s. record s { status = SignalingStatus.binding now })
      (default_signaling (SignalingStatus.binding now))

unfoldable pub mark_signaling_bound : Text → WorldState → WorldState
mark_signaling_bound addr =
    modify_or_insert addr
      (λ s. record s {
        status = SignalingStatus.bound;
        retry_stride_secs = initial_retry_stride_secs;
      })
      (default_signaling SignalingStatus.bound)

unfoldable pub mark_signaling_disconnected : ℕ → Text → WorldState → WorldState
unfolding next_stride
mark_signaling_disconnected now addr world = record world {
  signaling =
      update addr
        (λ s.
          let stride =
            if s.retry_stride_secs == 0 then initial_retry_stride_secs else s.retry_stride_secs in
          record s {
            status = SignalingStatus.disconnected (now + from_secs stride) stride;
            retry_stride_secs = next_stride stride;
          })
        world.signaling;
}

unfoldable pub mark_signaling_failed : Text → Text → WorldState → WorldState
mark_signaling_failed addr reason =
    modify_or_insert addr (λ s. record s { status = SignalingStatus.failed reason })
      (default_signaling (SignalingStatus.failed reason))

unfoldable pub remove_signaling : Text → WorldState → WorldState
remove_signaling addr world = record world { signaling = remove addr world.signaling }
