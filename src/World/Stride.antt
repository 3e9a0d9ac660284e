-- ===== src/World/Stride.antt =====
-- The stride between attempts to connect again.
use collab_mode.Prelude.{
  ℕ, zero, suc, ◌+◌, ◌*◌, ◌^◌, ◌≤◌, ◌≡◌, refl, ap, ◌∙◌, min, arith, Text, List, [], ◌∷◌, ◌++◌,
  length, true, some,
}
use collab_mode.Map.{text_eq, lookup}
use collab_mode.Map.Laws.{beq_self, lookup-update}
use collab_mode.World.{
  RemoteStatus, RemoteState, WorldState, next_stride, from_secs, mark_remote_disconnected,
  mark_remote_connected,
}

pub next_stride-le : (n : ℕ) → next_stride n ≤ 60
unfolding next_stride
next_stride-le n = ground arith

pub next_stride-pos : (n : ℕ) → 1 ≤ n → 1 ≤ next_stride n
unfolding next_stride
next_stride-pos n h = ground arith

-- The stride after so many breaks in a row.
unfoldable pub stride_after : ℕ → ℕ
stride_after zero = 1
stride_after (suc k) = next_stride (stride_after k)

next_stride-min : (a : ℕ) → next_stride (min a 60) ≡ min (2 * a) 60
unfolding next_stride
next_stride-min a = ground arith

stride_after-min : (k : ℕ) → stride_after k ≡ min (2 ^ k) 60
unfolding stride_after
stride_after-min zero = refl
stride_after-min (suc k) =
    ap next_stride (stride_after-min k) ∙ next_stride-min (2 ^ k) ∙ omega arith

-- The remote's connection breaks at each of the times in turn.
abbrev pub breaks : Text → List ℕ → WorldState → WorldState
breaks peer [] world = world
breaks peer (t ∷ ts) world = breaks peer ts (mark_remote_disconnected t peer world)

pub mark_remote_disconnected-stride :
    (now : ℕ) (peer : Text) (world : WorldState) (r : RemoteState)
    → lookup peer world.remotes ≡ some r
    → lookup peer (mark_remote_disconnected now peer world).remotes
      ≡ some (record r {
        status =
            RemoteStatus.disconnected (now + from_secs r.retry_stride_secs) r.retry_stride_secs;
        retry_stride_secs = next_stride r.retry_stride_secs;
      })
unfolding mark_remote_disconnected
mark_remote_disconnected-stride now peer world r e = rw lookup-update (rw (beq_self peer) (rw e))

breaks_from :
    (j i : ℕ) (peer : Text) (ts : List ℕ) (last : ℕ) (world : WorldState) (r : RemoteState)
    → lookup peer world.remotes ≡ some r
    → r.retry_stride_secs ≡ stride_after j
    → i ≡ j + length ts
    → (q : RemoteState) × (lookup peer (breaks peer (ts ++ last ∷ []) world).remotes ≡ some q)
      × (q.status ≡ RemoteStatus.disconnected (last + from_secs (stride_after i)) (stride_after i))
breaks_from j i peer [] last world r e s is_i =
    let at : r.retry_stride_secs ≡ stride_after i = s ∙ ap stride_after (omega arith) in
    (
      record r {
        status =
            RemoteStatus.disconnected (last + from_secs r.retry_stride_secs) r.retry_stride_secs;
        retry_stride_secs = next_stride r.retry_stride_secs;
      },
      mark_remote_disconnected-stride last peer world r e,
      ap (λ n. RemoteStatus.disconnected (last + from_secs n) n) at,
    )
breaks_from j i peer (t ∷ ts) last world r e s is_i =
    breaks_from (suc j) i peer ts last (mark_remote_disconnected t peer world)
      (record r {
        status = RemoteStatus.disconnected (t + from_secs r.retry_stride_secs) r.retry_stride_secs;
        retry_stride_secs = next_stride r.retry_stride_secs;
      })
      (mark_remote_disconnected-stride t peer world r e) (unfold stride_after in ap next_stride s)
      (omega arith)

-- A peer that was connected, and whose connection breaks `length ts` times without one in between
-- and then at `last`, is tried again `2 ^ length ts` seconds after `last`, but at most 60.
pub mark_remote_disconnected-doubles :
    (peer : Text) (ts : List ℕ) (last : ℕ) (world : WorldState) (r : RemoteState)
    → lookup peer world.remotes ≡ some r
    → let stride = min (2 ^ length ts) 60 in
      (q : RemoteState) × (lookup peer
          (breaks peer (ts ++ last ∷ []) (mark_remote_connected peer world)).remotes
        ≡ some q)
      × (q.status ≡ RemoteStatus.disconnected (last + from_secs stride) stride)
mark_remote_disconnected-doubles peer ts last world r e = rw⁻¹ (stride_after-min (length ts)) (
    breaks_from 0 (length ts) peer ts last (mark_remote_connected peer world)
      (record r { status = RemoteStatus.connected; ever_connected = true; retry_stride_secs = 1 })
      (unfold mark_remote_connected in rw lookup-update (rw (beq_self peer) (rw e refl)))
      (unfold stride_after in refl) (omega arith))
