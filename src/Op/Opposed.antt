-- ===== src/Op/Opposed.antt =====
-- Concurrent marks of opposite liveness: where the code does not converge.
use collab_mode.Prelude.{
  ℕ, zero, suc, ◌<◌, ◌≡◌, ◌≢◌, refl, Bool, true, false, Option, none, some, [], ◌∷◌, arith, Text,
  length,
}
use collab_mode.Op.{mark, transform}
use collab_mode.Document.{Document, mark_at, mark_all, apply}
use collab_mode.Document.Laws.{length-mark_at}

abbrev live_at : ℕ → Document → Option Bool
live_at i [] = none
live_at zero (c ∷ d) = some c.live
live_at (suc i) (c ∷ d) = live_at i d

-- A mark gives its liveness to its first character.
live_at-mark_at :
    (p n : ℕ) (b : Bool) (d : Document) → p < length d → live_at p (mark_at p (suc n) b d) ≡ some b
unfolding mark_at
live_at-mark_at p n b [] h = absurd (omega arith)
live_at-mark_at zero n b (c ∷ d) h = refl
live_at-mark_at (suc p) n b (c ∷ d) h = live_at-mark_at p n b d (omega arith)

-- A deletion and an undeletion of the same text of the document that two sites make concurrently
-- leave the two sites with different documents, whichever sites they are.
pub apply-transform_opposed :
    (p s s' c : ℕ) (t : Text) (d : Document)
    → p < length d
    → let a = mark ((p, c ∷ t) ∷ []) false s in
      let b = mark ((p, c ∷ t) ∷ []) true s' in
      apply (transform b a) (apply a d) ≢ apply (transform a b) (apply b d)
unfolding apply transform mark_all
apply-transform_opposed p s s' c t d h e = cc (
  live_at-mark_at p (length t) true (mark_at p (suc (length t)) false d) (rw length-mark_at h),
  live_at-mark_at p (length t) false (mark_at p (suc (length t)) true d) (rw length-mark_at h),
)
