-- ===== src/Signaling/Server.antt =====
-- The signaling server (collab_mode/src/signaling/server.rs): the map of bound endpoints and the
-- life of a connection. A channel is the number of the connection whose stream it leads to.
pub mod Relay
pub mod Rebind
use collab_mode.Prelude.{
  ℕ, ◌+◌, ◌-◌, ◌^◌, ◌%◌, ltb, ◌*◌, Bool, true, false, not, Option, none, some, List, [], ◌∷◌, ◌++◌,
  Text, codes, if◌then◌else◌,
}
use collab_mode.Map
use collab_mode.Map.{nat_eq, text_eq, text_beq, lookup, insert, remove, update}
use collab_mode.Signaling.{
  SignalingMsg, connect_msg, sdp_msg, candidate_msg, trust_msg, trusted_msg, id_not_found_msg,
  rejected_msg, ping_msg, pong_msg, terminate_msg,
}

pub record EndpointInfo : Type 0 where
  pub msg_tx : ℕ
  pub trusted : List Text

-- What a stream is told to send. A close carries its reason.
pub data Frame : Type 0 where
  text_frame : SignalingMsg → Frame
  close_frame : Option Text → Frame

-- What a stream receives: a text that is a message or that serde refuses, another frame, an error.
pub data Received : Type 0 where
  received_msg : SignalingMsg → Received
  received_other_text : Received
  received_binary : Received
  received_error : Received

-- What handling one message comes to: the frames sent, the endpoints, the time of the last ping,
-- and whether it is `Ok`.
pub record Answer : Type 0 where
  pub out : List (ℕ × Frame)
  pub endpoint_map : List (Text × EndpointInfo)
  pub last_ping : ℕ
  pub is_ok : Bool

abbrev pub has_id : Text → List Text → Bool
has_id id [] = false
has_id id (t ∷ ids) = if text_beq t id then true else has_id id ids

-- Whether the provided id is the recorded one.
unfoldable pub check_id : Text → Option Text → Bool
check_id provided none = true
check_id provided (some recorded) = text_beq recorded provided

abbrev pub unsupported_reason : Text
unsupported_reason = codes "Send Connect, SDP, Candidate, Trust, or Ping only"

abbrev pub other_id_reason : Text
other_id_reason = codes "You are using a endpoint id different from the one recorded"

-- `live` tells which channels still have a stream behind them, `own` is the channel of the
-- connection itself.
module _ (live : ℕ → Bool) (now own : ℕ) (recorded : Option Text) (last_ping : ℕ)
    (endpoints : List (Text × EndpointInfo)) where
  -- `send(frame).await?`
  abbrev pub deliver : ℕ → Frame → List (Text × EndpointInfo) → Answer
  deliver channel frame endpoints' = record {
    out = if live channel then (channel, frame) ∷ [] else [];
    endpoint_map = endpoints';
    last_ping = last_ping;
    is_ok = live channel;
  }

  -- The error of `check_id`.
  abbrev pub refuse_id : Answer
  refuse_id = record (deliver own (close_frame (some other_id_reason)) endpoints) { is_ok = false }

  unfoldable pub relay : Text → Text → SignalingMsg → Answer
  unfolding check_id
  relay sender receiver msg =
      if check_id sender recorded
      then (elim (lookup receiver endpoints) [
        | none ↦
            deliver own
              (text_frame
                (id_not_found_msg sender (codes "No endpoint found for id: " ++ receiver)))
              endpoints
        | some info ↦
            (if has_id sender info.trusted
              then deliver info.msg_tx (text_frame msg) endpoints
              else deliver own
                  (text_frame (
                    rejected_msg sender
                      (codes "Sender not in " ++ (receiver ++ codes "’s trust list"))))
                  endpoints)
      ])
      else refuse_id

  unfoldable pub update_trust : Text → List Text → Answer
  unfolding check_id
  update_trust sender trusted =
      if check_id sender recorded
      then deliver own (text_frame (trusted_msg sender trusted))
          (update sender (λ info. record info { trusted = trusted }) endpoints)
      else refuse_id

  unfoldable pub handle_text : SignalingMsg → Answer
  unfolding relay update_trust
  handle_text (trust_msg sender trusted) = update_trust sender trusted
  handle_text (connect_msg sender receiver initiator) =
      relay sender receiver (connect_msg sender receiver initiator)
  handle_text (sdp_msg sender receiver sdp) = relay sender receiver (sdp_msg sender receiver sdp)
  handle_text (candidate_msg sender receiver candidate) =
      relay sender receiver (candidate_msg sender receiver candidate)
  handle_text ping_msg = record {
    out = [];
    endpoint_map = endpoints;
    last_ping = now;
    is_ok = true;
  }
  handle_text pong_msg = record {
    out = [];
    endpoint_map = endpoints;
    last_ping = last_ping;
    is_ok = true;
  }
  handle_text _ = deliver own (close_frame (some unsupported_reason)) endpoints

  unfoldable pub handle_message : Received → Answer
  unfolding handle_text
  handle_message (received_msg msg) = handle_text msg
  handle_message received_binary =
      deliver own (close_frame (some (codes "We only support text message"))) endpoints
  handle_message _ = record {
    out = [];
    endpoint_map = endpoints;
    last_ping = last_ping;
    is_ok = false;
  }

-- A connection that is being served, after its id was bound.
pub record Served : Type 0 where
  pub endpoint_id : Option Text
  pub last_ping : ℕ

-- The server with its connections.
pub record Hub : Type 0 where
  pub endpoint_map : List (Text × EndpointInfo)
  pub connections : List (ℕ × Served)

-- The first part of `handle_connection`, once the headers have been accepted.
unfoldable pub begin_connection : ℕ → ℕ → Text → List Text → Hub → Hub
begin_connection now channel id trusted hub = record {
  endpoint_map = insert id (record { msg_tx = channel; trusted = trusted }) hub.endpoint_map;
  connections = insert channel (record { endpoint_id = some id; last_ping = now }) hub.connections;
}

-- What `run_signaling_server` does when `handle_connection` has returned.
unfoldable pub end_connection : ℕ → Hub → Hub
end_connection channel hub = elim (lookup channel hub.connections) [
  | none ↦ hub
  | some served ↦ (record {
    endpoint_map = elim served.endpoint_id [
      | none ↦ hub.endpoint_map
      | some id ↦ remove id hub.endpoint_map
    ];
    connections = remove channel hub.connections;
  })
]

-- One round of the loop of `handle_connection`: an error ends the connection.
unfoldable pub serve : (ℕ → Bool) → ℕ → ℕ → Received → Hub → List (ℕ × Frame) × Hub
unfolding handle_message end_connection
serve live now channel received hub = elim (lookup channel hub.connections) [
  | none ↦ ([], hub)
  | some served ↦
      (let answer =
          handle_message live now channel served.endpoint_id served.last_ping hub.endpoint_map
            received in
        let hub' : Hub = record {
          endpoint_map = answer.endpoint_map;
          connections =
              update channel (λ c. record c { last_ping = answer.last_ping }) hub.connections;
        } in
        if answer.is_ok then (answer.out, hub') else (
          answer.out ++ (if live channel then (channel, close_frame none) ∷ [] else []),
          end_connection channel hub',
        ))
]
