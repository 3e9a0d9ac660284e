-- ===== src/World/Invariant.antt =====
-- What holds of every connection, whatever messages come in whatever order.
use collab_mode.Prelude.{
  ℕ, ◌≤◌, ◌≡◌, inl, inr, refl, Bool, true, Bool-cases, Option, none, some, List, arith, Text,
}
use collab_mode.Map.{text_eq, lookup, contains_key, update}
use collab_mode.Map.Laws.{
  Values, insert-Values, remove-Values, update-Values, update-Values_at, lookup-Values,
}
use collab_mode.World.{
  TransportConfig, SignalingState, RemoteStatus, RemoteState, WorldState, set_remote,
  set_remote_connecting1, set_remote_connecting2, set_remote_pending, history_of,
  mark_remote_connected, mark_remote_disconnected, mark_remote_failed, remove_remote,
  modify_or_insert, set_signaling_binding, mark_signaling_bound, mark_signaling_disconnected,
  mark_signaling_failed, remove_signaling,
}
use collab_mode.World.Fix.{ever_of, give_up}
use collab_mode.World.Events.{confirm_trust, reset_failed, is_failed}
use collab_mode.World.Stride.{next_stride-le, next_stride-pos}

-- A peer that is connected, or disconnected and so to be tried again, was connected.
pub HasConnected : RemoteStatus → Bool → Type 0
HasConnected RemoteStatus.connected ever = ever ≡ true
HasConnected (RemoteStatus.disconnected _ _) ever = ever ≡ true
HasConnected _ ever = Unit

-- A remote has been connected wherever it is now, or was and will be tried again, and its stride
-- lies between the first one and the cap.
pub record RemoteSane (r : RemoteState) : Type 0 where
  pub stride_low : 1 ≤ r.retry_stride_secs
  pub stride_high : r.retry_stride_secs ≤ 60
  pub history : HasConnected r.status r.ever_connected

-- The stride is 0 in an entry that has not been bound.
pub record SignalingSane (s : SignalingState) : Type 0 where
  pub stride_high : s.retry_stride_secs ≤ 60

pub record Sane (w : WorldState) : Type 0 where
  pub remotes : Values RemoteSane w.remotes
  pub signaling : Values SignalingSane w.signaling

history_of_sane :
    (peer : Text) (m : List (Text × RemoteState))
    → Values RemoteSane m
    → (1 ≤ (history_of (lookup peer m)).1) × ((history_of (lookup peer m)).1 ≤ 60)
history_of_sane peer m all = go (lookup peer m) (λ v e. lookup-Values RemoteSane peer m v e all)
  where
    go :
        (o : Option RemoteState)
        → ((v : RemoteState) → o ≡ some v → RemoteSane v)
        → (1 ≤ (history_of o).1) × ((history_of o).1 ≤ 60)
    go none f = omega arith
    go (some v) f = let s = f v refl in omega arith

-- A new entry, that is neither connected nor to be tried again.
new_entry-Sane :
    (peer : Text) (w : WorldState) (r : RemoteState)
    → Sane w
    → r.retry_stride_secs ≡ (history_of (lookup peer w.remotes)).1
    → HasConnected r.status r.ever_connected
    → Sane (set_remote peer r w)
new_entry-Sane peer w r s stride history =
    let h = history_of_sane peer w.remotes s.remotes in
    record {
      remotes =
          insert-Values RemoteSane peer r w.remotes
            (record {
              stride_low = omega (arith, h.0);
              stride_high = omega (arith, h.1);
              history = history;
            })
            s.remotes;
      signaling = s.signaling;
    }

-- A change of the entry of a peer.
pub updated-Sane :
    (peer : Text) (w : WorldState) (f : RemoteState → RemoteState)
    → Sane w
    → ((r : RemoteState) → lookup peer w.remotes ≡ some r → RemoteSane r → RemoteSane (f r))
    → Sane (record w { remotes = update peer f w.remotes })
updated-Sane peer w f s keep = record {
  remotes = update-Values_at RemoteSane peer f w.remotes keep s.remotes;
  signaling = s.signaling;
}

module _ (now id : ℕ) (peer : Text) (t : TransportConfig) (w : WorldState) (s : Sane w) where
  pub connecting1-Sane : Sane (set_remote_connecting1 now id peer t w).1
  unfolding set_remote_connecting1
  connecting1-Sane = new_entry-Sane peer w _ s refl (unfold HasConnected in tt)

  pub connecting2-Sane : Sane (set_remote_connecting2 now id peer t w).1
  unfolding set_remote_connecting2
  connecting2-Sane = new_entry-Sane peer w _ s refl (unfold HasConnected in tt)

  pub pending-Sane : Sane (set_remote_pending id peer t w)
  unfolding set_remote_pending
  pending-Sane = new_entry-Sane peer w _ s refl (unfold HasConnected in tt)

pub failed-Sane :
    (peer reason : Text) (w : WorldState) → Sane w → Sane (mark_remote_failed peer reason w)
unfolding mark_remote_failed
failed-Sane peer reason w s = updated-Sane peer w _ s λ r found ok. record {
  stride_low = ok.stride_low;
  stride_high = ok.stride_high;
  history = unfold HasConnected in tt;
}

pub connected-Sane : (peer : Text) (w : WorldState) → Sane w → Sane (mark_remote_connected peer w)
unfolding mark_remote_connected
connected-Sane peer w s = updated-Sane peer w _ s λ r found ok. record {
  stride_low = omega arith;
  stride_high = omega arith;
  history = unfold HasConnected in refl;
}

disconnected-Sane :
    (now : ℕ) (peer : Text) (w : WorldState)
    → ever_of (lookup peer w.remotes) ≡ true
    → Sane w
    → Sane (mark_remote_disconnected now peer w)
unfolding mark_remote_disconnected
disconnected-Sane now peer w ever s = updated-Sane peer w _ s λ r found ok.
    let was : r.ever_connected ≡ true = rw found at ever in
    record {
      stride_low = next_stride-pos r.retry_stride_secs ok.stride_low;
      stride_high = next_stride-le r.retry_stride_secs;
      history = unfold HasConnected in was;
    }

pub give_up-Sane :
    (now : ℕ) (peer reason : Text) (w : WorldState) → Sane w → Sane (give_up now peer reason w)
unfolding give_up
give_up-Sane now peer reason w s = elim (Bool-cases (ever_of (lookup peer w.remotes))) [
  | inl was ↦ rw was (disconnected-Sane now peer w was s)
  | inr never ↦ rw never (failed-Sane peer reason w s)
]

pub remove_remote-Sane : (peer : Text) (w : WorldState) → Sane w → Sane (remove_remote peer w)
unfolding remove_remote
remove_remote-Sane peer w s = record {
  remotes = remove-Values RemoteSane peer w.remotes s.remotes;
  signaling = s.signaling;
}

pub reset_failed-Sane : (r : RemoteState) → RemoteSane r → RemoteSane (reset_failed r)
reset_failed-Sane r ok = elim (Bool-cases (is_failed r.status)) [
  | inl bad ↦ rw bad (record {
    stride_low = ok.stride_low;
    stride_high = ok.stride_high;
    history = unfold HasConnected in tt;
  })
  | inr good ↦ rw good ok
]

-- The signaling entries.
modify_or_insert-Sane :
    (addr : Text) (w : WorldState) (f : SignalingState → SignalingState) (default : SignalingState)
    → Sane w
    → ((c : SignalingState) → SignalingSane c → SignalingSane (f c))
    → SignalingSane default
    → Sane (modify_or_insert addr f default w)
modify_or_insert-Sane addr w f default s keep new =
    elim (Bool-cases (contains_key addr w.signaling)) [
      | inl there ↦ rw there (record {
        remotes = s.remotes;
        signaling = update-Values SignalingSane addr f w.signaling keep s.signaling;
      })
      | inr missing ↦ rw missing (record {
        remotes = s.remotes;
        signaling = insert-Values SignalingSane addr default w.signaling new s.signaling;
      })
    ]

same_stride :
    (c d : SignalingState)
    → d.retry_stride_secs ≡ c.retry_stride_secs
    → SignalingSane c
    → SignalingSane d
same_stride c d e ok = record { stride_high = omega (arith, ok.stride_high) }

module _ (addr : Text) (w : WorldState) (s : Sane w) where
  pub binding-Sane : (now : ℕ) → Sane (set_signaling_binding now addr w)
  unfolding set_signaling_binding
  binding-Sane now =
      modify_or_insert-Sane addr w _ _ s (λ c. same_stride c _ refl)
        (record { stride_high = omega arith })

  pub bound-Sane : Sane (mark_signaling_bound addr w)
  unfolding mark_signaling_bound
  bound-Sane =
      modify_or_insert-Sane addr w _ _ s (λ c ok. record { stride_high = omega arith })
        (record { stride_high = omega arith })

  pub signaling_failed-Sane : (reason : Text) → Sane (mark_signaling_failed addr reason w)
  unfolding mark_signaling_failed
  signaling_failed-Sane reason =
      modify_or_insert-Sane addr w _ _ s (λ c. same_stride c _ refl)
        (record { stride_high = omega arith })

  pub signaling_disconnected-Sane : (now : ℕ) → Sane (mark_signaling_disconnected now addr w)
  unfolding mark_signaling_disconnected
  signaling_disconnected-Sane now = record {
    remotes = s.remotes;
    signaling =
        update-Values SignalingSane addr _ w.signaling
          (λ c ok. record { stride_high = next_stride-le _ }) s.signaling;
  }

  pub remove_signaling-Sane : Sane (remove_signaling addr w)
  unfolding remove_signaling
  remove_signaling-Sane = record {
    remotes = s.remotes;
    signaling = remove-Values SignalingSane addr w.signaling s.signaling;
  }

  pub confirmed-Sane : (trusted : List Text) → Sane (confirm_trust addr trusted w)
  confirmed-Sane trusted = record {
    remotes = s.remotes;
    signaling =
        update-Values SignalingSane addr _ w.signaling (λ c. same_stride c _ refl) s.signaling;
  }

  pub trust_sent-Sane :
      (at : ℕ)
      → Sane (record w {
        signaling = update addr (λ c. record c { trust_sent_at = some at }) w.signaling;
      })
  trust_sent-Sane at = record {
    remotes = s.remotes;
    signaling =
        update-Values SignalingSane addr _ w.signaling (λ c. same_stride c _ refl) s.signaling;
  }
