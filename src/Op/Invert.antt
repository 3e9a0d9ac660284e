-- ===== src/Op/Invert.antt =====
-- What the inverse of an operation undoes.
use collab_mode.Prelude.{
  ℕ, zero, suc, ◌≤◌, ◌≡◌, refl, sym, ap, ◌∙◌, Bool, false, not, List, [], ◌∷◌, ◌++◌, arith, Text,
  length, All,
}
use collab_mode.Op.{Op, Segment, ins, mark, inverse}
use collab_mode.Op.Converge.{mark_at-mark_all}
use collab_mode.Document.{Document, Cell, cells, insert_at, mark_at, mark_all, apply, shown}

-- Dead cells show nothing.
shown-mark_cells :
    (t : Text) (d : Document) → shown (mark_at 0 (length t) false (cells t ++ d)) ≡ shown d
unfolding shown mark_at
shown-mark_cells [] [] = refl
shown-mark_cells [] (c ∷ d) = refl
shown-mark_cells (x ∷ t) d = shown-mark_cells t d

shown-cons : (c : Cell) (d d' : Document) → shown d ≡ shown d' → shown (c ∷ d) ≡ shown (c ∷ d')
unfolding shown
shown-cons c d d' e = ground arith

shown-mark_at-insert_at :
    (p : ℕ) (t : Text) (d : Document)
    → p ≤ length d
    → shown (mark_at p (length t) false (insert_at p t d)) ≡ shown d
unfolding insert_at mark_at
shown-mark_at-insert_at zero t d h = shown-mark_cells t d
shown-mark_at-insert_at (suc p) t [] h = absurd (omega arith)
shown-mark_at-insert_at (suc p) t (c ∷ d) h =
    shown-cons c _ d (shown-mark_at-insert_at p t d (omega arith))

-- The `n` cells from position `p` on, as far as they exist, have the liveness `b`.
abbrev pub AllAt : Bool → ℕ → ℕ → Document → Type 0
AllAt b p n [] = Unit
AllAt b (suc p) n (c ∷ d) = AllAt b p n d
AllAt b zero zero (c ∷ d) = Unit
AllAt b zero (suc n) (c ∷ d) = (c.live ≡ b) × AllAt b zero n d

mark_at_same : (p n : ℕ) (b : Bool) (d : Document) → AllAt b p n d → mark_at p n b d ≡ d
unfolding mark_at
mark_at_same p n b [] h = refl
mark_at_same (suc p) n b (c ∷ d) h = ap (c ∷◌) (mark_at_same p n b d h)
mark_at_same zero zero b (c ∷ d) h = refl
mark_at_same zero (suc n) b (c ∷ d) h = cc (mark_at_same zero n b d h.1, h.0)

-- Of two marks of one place the later one counts.
mark_at_over :
    (p n : ℕ) (b b' : Bool) (d : Document) → mark_at p n b (mark_at p n b' d) ≡ mark_at p n b d
unfolding mark_at
mark_at_over p n b b' [] = refl
mark_at_over (suc p) n b b' (c ∷ d) = ap (c ∷◌) (mark_at_over p n b b' d)
mark_at_over zero zero b b' (c ∷ d) = refl
mark_at_over zero (suc n) b b' (c ∷ d) = ap (record c { live = b } ∷◌) (mark_at_over zero n b b' d)

mark_all_back :
    (segs : List Segment) (b b' : Bool) (d : Document)
    → All (λ (s : Segment). AllAt b s.0 (length s.1) d) segs
    → mark_all segs b (mark_all segs b' d) ≡ d
unfolding mark_all
mark_all_back [] b b' d h = refl
mark_all_back ((p, t) ∷ segs) b b' d h =
    ap (λ x. mark_all segs b (mark_at p n b x)) (sym (mark_at-mark_all segs p n b' d))
    ∙ ap (mark_all segs b) (mark_at_over p n b b' (mark_all segs b' d))
    ∙ sym (mark_at-mark_all segs p n b (mark_all segs b' d))
    ∙ ap (mark_at p n b) (mark_all_back segs b b' d h.1)
    ∙ mark_at_same p n b d h.0
  where
    n : ℕ
    n = length t

-- The operation inserts within the document, or changes every character that it marks.
abbrev pub Flips : Op → Document → Type 0
Flips (ins (p, t) s) d = p ≤ length d
Flips (mark segs b s) d = All (λ (s : Segment). AllAt (not b) s.0 (length s.1) d) segs

-- The inverse of an operation brings back the shown text, where the operation inserts within the
-- document or marks only characters that have the other liveness.
pub shown-inverse :
    (op : Op) (d : Document) → Flips op d → shown (apply (inverse op) (apply op d)) ≡ shown d
unfolding apply inverse
shown-inverse (ins (p, t) s) d h = unfold mark_all in shown-mark_at-insert_at p t d h
shown-inverse (mark segs b s) d h = ap shown (mark_all_back segs (not b) b d h)
