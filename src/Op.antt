-- ===== src/Op.antt =====
-- The operations that sites exchange and their transformation (collab_mode/src/op.rs).
pub mod Converge
pub mod Keep
pub mod Opposed
pub mod Invert
use collab_mode.Prelude.{
  ℕ, ◌-◌, ◌==◌, ltb, Bool, false, not, ◌&&◌, ◌||◌, List, [], ◌∷◌, ◌++◌, Text, length, take, drop,
  add_u64, if◌then◌else◌,
}

pub data OpKind : Type 0 where
  original : OpKind
  undo : ℕ → OpKind

-- A position and a text: what an insertion carries, and each segment of a mark.
abbrev pub Segment : Type 0
Segment = ℕ × Text

pub data Op : Type 0 where
  ins : Segment → ℕ → Op
  mark : List Segment → Bool → ℕ → Op

unfoldable pub site : Op → ℕ
site (ins _ s) = s
site (mark _ _ s) = s

unfoldable pub pos_less_than : ℕ → ℕ → ℕ → ℕ → Bool
pos_less_than pos1 pos2 site1 site2 = ltb pos1 pos2 || (pos1 == pos2 && ltb site1 site2)

unfoldable pub transform_ii : Segment → Segment → ℕ → ℕ → Segment
transform_ii (pos1, content1) (pos2, content2) op_site base_site =
    if pos_less_than pos1 pos2 op_site base_site
    then (pos1, content1)
    else (add_u64 pos1 (length content2), content1)

-- `if seg.1.chars().count() > 0 { res.push(seg) }`
unfoldable pub push_nonempty : Segment → List Segment → List Segment
push_nonempty (pos, content) res = if ltb 0 (length content) then (pos, content) ∷ res else res

-- `pos2 - pos1` is computed only where neither test before it passes, so at `pos1 ≤ pos2`.
unfoldable pub transform_di : Segment → Segment → ℕ → ℕ → List Segment
unfolding push_nonempty
transform_di (pos1, content1) (pos2, content2) op_site base_site =
    let end1 = add_u64 pos1 (length content1) in
    let end2 = add_u64 pos2 (length content2) in
    if pos_less_than end1 pos2 op_site base_site
    then (pos1, content1) ∷ []
    else if pos_less_than pos2 pos1 base_site op_site
    then (add_u64 pos1 (length content2), content1) ∷ []
    else (let mid = pos2 - pos1 in
        push_nonempty (pos1, take mid content1) (push_nonempty (end2, drop mid content1) []))

unfoldable pub inverse : Op → Op
inverse (ins (pos, str) s) = mark ((pos, str) ∷ []) false s
inverse (mark ops live s) = mark ops (not live) s

-- The loop over the segments of a mark.
unfoldable pub transform_segments : List Segment → Segment → ℕ → ℕ → List Segment
transform_segments [] base self_site base_site = []
transform_segments (op ∷ ops) base self_site base_site =
    transform_di op base self_site base_site ++ transform_segments ops base self_site base_site

unfoldable pub transform : Op → Op → Op
transform (ins op self_site) (ins base base_site) =
    ins (transform_ii op base self_site base_site) self_site
transform (mark ops live self_site) (ins base base_site) =
    mark (transform_segments ops base self_site base_site) live self_site
transform (ins op self_site) (mark _ _ _) = ins op self_site
transform (mark ops live self_site) (mark _ _ _) = mark ops live self_site
