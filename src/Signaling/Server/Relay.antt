-- ===== src/Signaling/Server/Relay.antt =====
-- What the signaling server passes on, and how its answers fit the host that gets them.

use collab_mode.Prelude.{
  ℕ, ◌≡◌, ◌⊎◌, inl, inr, refl, Bool, true, false, Bool-cases, Option, Option-cases, none, some,
  List, [], ◌∷◌, All, Text, if◌then◌else◌,
}
use collab_mode.Map.{text_eq, text_beq, text_beq_iff, lookup}
use collab_mode.Map.Laws.{lookup-update}
use collab_mode.Signaling.{
  SignalingMsg, bound_msg, connect_msg, sdp_msg, candidate_msg, trust_msg, trusted_msg,
  id_not_found_msg, rejected_msg, ping_msg, pong_msg, terminate_msg,
}
use collab_mode.Signaling.Server.{
  EndpointInfo, Frame, text_frame, Received, received_msg, received_other_text, received_binary,
  received_error, has_id, check_id, relay, update_trust, handle_text, handle_message,
}

-- The sender and the receiver of a message that is passed on.
unfoldable pub addressed : SignalingMsg → Option (Text × Text)
addressed (connect_msg sender receiver _) = some (sender, receiver)
addressed (sdp_msg sender receiver _) = some (sender, receiver)
addressed (candidate_msg sender receiver _) = some (sender, receiver)
addressed _ = none

-- A frame that may be sent where `msg` came in on the channel `own` of the endpoint `id`: it goes
-- back on that channel, or it is the message itself, of that endpoint, and goes to its receiver,
-- which is bound and trusts the sender.
pub Permitted : ℕ → Text → List (Text × EndpointInfo) → SignalingMsg → ℕ × Frame → Type 0
Permitted own id endpoints msg (channel, frame) =
    (channel ≡ own)
    ⊎ ((receiver : Text) × (info : EndpointInfo) × (frame ≡ text_frame msg)
        × (addressed msg ≡ some (id, receiver))
        × (lookup receiver endpoints ≡ some info)
        × (channel ≡ info.msg_tx)
        × (has_id id info.trusted ≡ true))

module _ (live : ℕ → Bool) (now own : ℕ) (id : Text) (last_ping : ℕ)
    (endpoints : List (Text × EndpointInfo)) where
  sent-Permitted :
      (msg : SignalingMsg) (channel : ℕ) (frame : Frame)
      → Permitted own id endpoints msg (channel, frame)
      → All (Permitted own id endpoints msg) (if live channel then (channel, frame) ∷ [] else [])
  sent-Permitted msg channel frame good = elim (Bool-cases (live channel)) [
    | inl on ↦ rw on (good, tt)
    | inr off ↦ rw off tt
  ]

  back-Permitted :
      (msg : SignalingMsg) (frame : Frame)
      → All (Permitted own id endpoints msg) (if live own then (own, frame) ∷ [] else [])
  back-Permitted msg frame = sent-Permitted msg own frame (unfold Permitted in inl refl)

  relay-Permitted :
      (sender receiver : Text) (msg : SignalingMsg)
      → addressed msg ≡ some (sender, receiver)
      → All
          (Permitted own id endpoints msg)
          (relay live now own (some id) last_ping endpoints sender receiver msg).out
  unfolding relay check_id
  relay-Permitted sender receiver msg is = elim (Bool-cases (text_beq id sender)) [
    | inr other ↦ rw other (back-Permitted msg _)
    | inl same ↦ elim (Option-cases (lookup receiver endpoints)) [
      | inl missing ↦ rw same (rw (missing, relay) (back-Permitted msg _))
      | inr (info, found) ↦ elim (Bool-cases (has_id sender info.trusted)) [
        | inr stranger ↦ rw same (rw (found, relay) (rw stranger (back-Permitted msg _)))
        | inl friend ↦
            let e : id ≡ sender = (text_beq_iff id sender).0 same in
            rw same (
              rw (found, relay)
                (rw friend (
                  sent-Permitted msg info.msg_tx (text_frame msg) (
                    unfold Permitted in
                    inr (receiver, info, refl, rw e is, found, refl, rw e friend)))))
      ]
    ]
  ]

  update_trust-Permitted :
      (sender : Text) (trusted : List Text) (msg : SignalingMsg)
      → All
          (Permitted own id endpoints msg)
          (update_trust live now own (some id) last_ping endpoints sender trusted).out
  unfolding update_trust check_id
  update_trust-Permitted sender trusted msg = elim (Bool-cases (text_beq id sender)) [
    | inr other ↦ rw other (back-Permitted msg _)
    | inl same ↦ rw same (back-Permitted msg _)
  ]

  -- Whatever message an endpoint sends, the signaling server answers it on its own channel, or
  -- passes the message on to the bound endpoint that it is addressed to, and that only where the
  -- message names the endpoint's own id as its sender and the receiver trusts that id.
  pub handle_text-Permitted :
      (msg : SignalingMsg)
      → All
          (Permitted own id endpoints msg)
          (handle_message live now own (some id) last_ping endpoints (received_msg msg)).out
  unfolding handle_message handle_text
  handle_text-Permitted (trust_msg sender trusted) = update_trust-Permitted sender trusted _
  handle_text-Permitted (connect_msg sender receiver initiator) =
      relay-Permitted sender receiver _ (unfold addressed in refl)
  handle_text-Permitted (sdp_msg sender receiver sdp) =
      relay-Permitted sender receiver _ (unfold addressed in refl)
  handle_text-Permitted (candidate_msg sender receiver candidate) =
      relay-Permitted sender receiver _ (unfold addressed in refl)
  handle_text-Permitted ping_msg = tt
  handle_text-Permitted pong_msg = tt
  handle_text-Permitted (bound_msg _ _) = back-Permitted _ _
  handle_text-Permitted (trusted_msg _ _) = back-Permitted _ _
  handle_text-Permitted (id_not_found_msg _ _) = back-Permitted _ _
  handle_text-Permitted (rejected_msg _ _) = back-Permitted _ _
  handle_text-Permitted (terminate_msg _) = back-Permitted _ _

  relay-endpoints :
      (sender receiver : Text) (msg : SignalingMsg)
      → (relay live now own (some id) last_ping endpoints sender receiver msg).endpoint_map
        ≡ endpoints
  unfolding relay check_id
  relay-endpoints sender receiver msg = elim (Bool-cases (text_beq id sender)) [
    | inr other ↦ rw other refl
    | inl same ↦ elim (Option-cases (lookup receiver endpoints)) [
      | inl missing ↦ rw same (rw (missing, relay) refl)
      | inr (info, found) ↦ elim (Bool-cases (has_id sender info.trusted)) [
        | inr stranger ↦ rw same (rw (found, relay) (rw stranger refl))
        | inl friend ↦ rw same (rw (found, relay) (rw friend refl))
      ]
    ]
  ]

  -- A message changes the entry of no endpoint but the one that sent it.
  pub handle_message-others :
      (received : Received) (q : Text)
      → text_beq id q ≡ false
      → lookup q (handle_message live now own (some id) last_ping endpoints received).endpoint_map
        ≡ lookup q endpoints
  unfolding handle_message handle_text update_trust check_id
  handle_message-others (received_msg (trust_msg sender trusted)) q other =
      elim (Bool-cases (text_beq id sender)) [
        | inr foreign ↦ rw foreign refl
        | inl same ↦
            let e : id ≡ sender = (text_beq_iff id sender).0 same in
            let other' : text_beq sender q ≡ false = rw e at other in
            rw same (rw lookup-update (rw other' refl))
      ]
  handle_message-others (received_msg (connect_msg sender receiver initiator)) q other =
      rw (relay-endpoints sender receiver (connect_msg sender receiver initiator)) refl
  handle_message-others (received_msg (sdp_msg sender receiver sdp)) q other =
      rw (relay-endpoints sender receiver (sdp_msg sender receiver sdp)) refl
  handle_message-others (received_msg (candidate_msg sender receiver candidate)) q other =
      rw (relay-endpoints sender receiver (candidate_msg sender receiver candidate)) refl
  handle_message-others (received_msg ping_msg) q other = refl
  handle_message-others (received_msg pong_msg) q other = refl
  handle_message-others (received_msg (bound_msg _ _)) q other = refl
  handle_message-others (received_msg (trusted_msg _ _)) q other = refl
  handle_message-others (received_msg (id_not_found_msg _ _)) q other = refl
  handle_message-others (received_msg (rejected_msg _ _)) q other = refl
  handle_message-others (received_msg (terminate_msg _)) q other = refl
  handle_message-others received_other_text q other = refl
  handle_message-others received_binary q other = refl
  handle_message-others received_error q other = refl
