-- ===== src/Signaling.antt =====
-- The messages between endpoints and the signaling server (collab_mode/src/signaling.rs).
-- Session descriptions and ICE candidates are texts, as in the code.
pub mod Server
use collab_mode.Prelude.{Bool, List, Text}

-- The two endpoints of a message are its sender and its receiver, in this order.
pub data SignalingMsg : Type 0 where
  bound_msg : Text → List Text → SignalingMsg
  connect_msg : Text → Text → Bool → SignalingMsg
  sdp_msg : Text → Text → Text → SignalingMsg
  candidate_msg : Text → Text → Text → SignalingMsg
  trust_msg : Text → List Text → SignalingMsg
  trusted_msg : Text → List Text → SignalingMsg
  id_not_found_msg : Text → Text → SignalingMsg
  rejected_msg : Text → Text → SignalingMsg
  ping_msg : SignalingMsg
  pong_msg : SignalingMsg
  terminate_msg : Text → SignalingMsg
