-- ===== src/Document.antt =====
-- What operations mean: a document is the sequence of its characters, each live or a tombstone.
-- This is the independent description that the code is held against.
pub mod Laws
use collab_mode.Prelude.{
  ℕ, zero, suc, ◌+◌, ◌≤◌, Bool, true, List, [], ◌∷◌, ◌++◌, map, Text, length, All,
}
use collab_mode.Op.{Op, Segment, ins, mark}

pub record Cell : Type 0 where
  pub char : ℕ
  pub live : Bool

abbrev pub Document : Type 0
Document = List Cell

-- Live cells for a text.
abbrev pub cells : Text → Document
cells t = map (λ c. record { char = c; live = true }) t

unfoldable pub insert_at : ℕ → Text → Document → Document
insert_at zero t d = cells t ++ d
insert_at (suc p) t [] = cells t
insert_at (suc p) t (c ∷ d) = c ∷ insert_at p t d

-- The first `n` cells from position `p` on become live or dead.
unfoldable pub mark_at : ℕ → ℕ → Bool → Document → Document
mark_at p n b [] = []
mark_at (suc p) n b (c ∷ d) = c ∷ mark_at p n b d
mark_at zero zero b (c ∷ d) = c ∷ d
mark_at zero (suc n) b (c ∷ d) = record c { live = b } ∷ mark_at zero n b d

unfoldable pub mark_all : List Segment → Bool → Document → Document
mark_all [] b d = d
mark_all ((p, t) ∷ segs) b d = mark_all segs b (mark_at p (length t) b d)

unfoldable pub apply : Op → Document → Document
apply (ins (p, t) _) d = insert_at p t d
apply (mark segs b _) d = mark_all segs b d

abbrev show_cell : Cell → Text → Text
show_cell c t = elim c.live [ true ↦ c.char ∷ t | _ ↦ t ]

-- The text that the editor shows.
unfoldable pub shown : Document → Text
shown [] = []
shown (c ∷ d) = show_cell c (shown d)

-- The number of characters that an operation adds.
unfoldable pub growth : Op → ℕ
growth (ins (_, t) _) = length t
growth (mark _ _ _) = 0

-- The operation names positions of the document only.
unfoldable pub Fits : Op → ℕ → Type 0
Fits (ins (p, t) _) n = p ≤ n
Fits (mark segs _ _) n = All (λ (s : Segment). s.0 + length s.1 ≤ n) segs
