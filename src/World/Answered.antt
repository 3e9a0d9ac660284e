-- ===== src/World/Answered.antt =====
-- A host and the signaling server together: what the server's answers do to the host.
use mathlib.Core.List.{◌++◌}
use mathlib.Core.Option.{map}
use collab_mode.Prelude.{
  ℕ, ◌≡◌, ◌⊎◌, inl, inr, refl, Bool, true, false, Option, Option-cases, none, some, List, [], ◌∷◌,
  Text, codes,
}
use collab_mode.Map.{text_eq, text_beq, lookup}
use collab_mode.Map.Laws.{beq_self, lookup-update}
use collab_mode.Types.Ids.{id_hash}
use collab_mode.Signaling.{SignalingMsg, connect_msg, rejected_msg, id_not_found_msg}
use collab_mode.Signaling.Server.{
  EndpointInfo, text_frame, close_frame, received_msg, has_id, check_id, relay, handle_text,
  handle_message, unsupported_reason,
}
use collab_mode.World.{RemoteState, RemoteStatus, mark_remote_failed}
use collab_mode.World.Fix.{Connections, Env, permission_denied, send}
use collab_mode.World.Events.{
  handle_signaling_msg, handle_signaling_connect_msg, refuse, is_connecting_or_connected,
  is_cert_trusted,
}

-- The receiver of a message is bound and trusts the sender.
unfoldable pub accepts : Text → Option EndpointInfo → Bool
accepts sender none = false
accepts sender (some info) = has_id sender info.trusted

-- The answer names a host, by `IdNotFound` or by `Rejected`.
abbrev pub Refuses : Text → Text → SignalingMsg → Type 0
Refuses host reason answer =
    (answer ≡ id_not_found_msg host reason) ⊎ (answer ≡ rejected_msg host reason)

-- The entry of a host that has failed, where it has one.
abbrev pub failed_entry : Text → Option RemoteState → Option RemoteState
failed_entry reason none = none
failed_entry reason (some r) = some (record r { status = RemoteStatus.failed reason })

map-failed :
    (reason : Text) (r : Option RemoteState)
    → map (λ (r : RemoteState). record r { status = RemoteStatus.failed reason }) r
      ≡ failed_entry reason r
map-failed reason none = refl
map-failed reason (some r) = refl

module _ (live : ℕ → Bool) (now own last_ping : ℕ) (endpoints : List (Text × EndpointInfo))
    (env : Env) (ideal_id : ℕ) (addr peer : Text) (s : Connections) where
  -- The message that says a connection is refused is none that the signaling server takes. A host
  -- that gets a connection request of a peer it does not trust, and to which it is not connecting
  -- yet, sends that message, and the server answers by closing the host's own connection.
  pub refuse-closes :
      (initiator : Bool)
      → is_connecting_or_connected (lookup peer s.current_world.remotes) ≡ false
      → is_cert_trusted (id_hash peer) s ≡ false
      → live own ≡ true
      → (msg : SignalingMsg) × ((handle_signaling_connect_msg env ideal_id addr peer initiator s).0
          ≡ permission_denied peer ∷ send addr msg ∷ [])
        × ((handle_message live now own (some s.host_id) last_ping endpoints (received_msg msg)).out
            ≡ (own, close_frame (some unsupported_reason)) ∷ [])
  unfolding handle_signaling_connect_msg refuse handle_message handle_text
  refuse-closes initiator idle stranger on = (
    rejected_msg peer (codes "Provided certificate not in my trusted list"),
    rw idle (rw stranger refl),
    rw on refl,
  )

  failed_self :
      (reason : Text)
      → text_beq s.host_id peer ≡ false
      → let remotes = (mark_remote_failed s.host_id reason s.current_world).remotes in
        (lookup s.host_id remotes ≡ failed_entry reason (lookup s.host_id s.current_world.remotes))
        × (lookup peer remotes ≡ lookup peer s.current_world.remotes)
  unfolding mark_remote_failed
  failed_self reason foreign = (
    rw lookup-update
        (rw (beq_self s.host_id) (map-failed reason (lookup s.host_id s.current_world.remotes))),
    rw lookup-update (rw foreign refl),
  )

  -- Where the peer of a connection request is not bound to the signaling server, or does not trust
  -- the host that sends the request, the server answers that host alone, with an `IdNotFound` or a
  -- `Rejected` that carries the id of the host itself. The host that takes the answer marks its own
  -- entry as failed, if it has one, and its entry of the peer stays as it is.
  pub relay-unnoticed :
      (initiator : Bool)
      → accepts s.host_id (lookup peer endpoints) ≡ false
      → text_beq s.host_id peer ≡ false
      → live own ≡ true
      → (answer : SignalingMsg) × (reason why : Text) × Refuses s.host_id reason answer
        × ((handle_message live now own
              (some s.host_id)
              last_ping
              endpoints
              (received_msg (connect_msg s.host_id peer initiator))).out
            ≡ (own, text_frame answer) ∷ [])
        × (lookup s.host_id
              (handle_signaling_msg env ideal_id addr answer s).1.current_world.remotes
            ≡ failed_entry why (lookup s.host_id s.current_world.remotes))
        × (lookup peer (handle_signaling_msg env ideal_id addr answer s).1.current_world.remotes
            ≡ lookup peer s.current_world.remotes)
  unfolding handle_message handle_text relay check_id handle_signaling_msg accepts
  relay-unnoticed initiator unreached foreign on = elim (Option-cases (lookup peer endpoints)) [
    | inl missing ↦ (
      id_not_found_msg s.host_id (codes "No endpoint found for id: " ++ peer),
      codes "No endpoint found for id: " ++ peer,
      codes "IdNotFound: " ++ (codes "No endpoint found for id: " ++ peer),
      inl refl,
      rw (beq_self s.host_id) (rw (missing, relay) (rw on refl)),
      (failed_self _ foreign).0,
      (failed_self _ foreign).1,
    )
    | inr (info, found) ↦
        let stranger : has_id s.host_id info.trusted ≡ false = rw found at unreached in
        (
          rejected_msg s.host_id (codes "Sender not in " ++ (peer ++ codes "’s trust list")),
          codes "Sender not in " ++ (peer ++ codes "’s trust list"),
          codes "Rejected by signaling: "
              ++ (codes "Sender not in " ++ (peer ++ codes "’s trust list")),
          inr refl,
          rw (beq_self s.host_id) (rw (found, relay) (rw stranger (rw on refl))),
          (failed_self _ foreign).0,
          (failed_self _ foreign).1,
        )
  ]
