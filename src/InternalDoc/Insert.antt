-- ===== src/InternalDoc/Insert.antt =====
-- `InternalDoc::apply_ins`: an insertion at an internal position.
pub mod Cursors
pub mod Follow
pub mod Refine
pub mod Behind
pub mod Result
use collab_mode.Prelude.{
  ℕ, ◌+◌, ◌-◌, ◌==◌, ltb, leb, Option, none, some, List, [], ◌∷◌, ◌++◌, map, length, get_elem?, set,
  take, drop, add_u64, sub_u64, assert, if◌then◌else◌, ◌>>=◌,
}
use collab_mode.InternalDoc.{Range, Cursor, InternalDoc, live, dead, is_live, len}

unfoldable pub shift_cursor : ℕ → ℕ → ℕ → Cursor → Cursor
shift_cursor idx delta range_idx_delta c = elim c.range_idx [
  | none ↦ c
  | some cursor_idx ↦
      (if leb idx cursor_idx
        then record {
          internal_pos = add_u64 c.internal_pos delta;
          editor_pos = add_u64 c.editor_pos delta;
          range_idx = some (cursor_idx + range_idx_delta);
        }
        else c)
]

unfoldable pub shift_cursors_right : ℕ → ℕ → ℕ → List (ℕ × Cursor) → List (ℕ × Cursor)
unfolding shift_cursor
shift_cursors_right idx delta range_idx_delta cursors =
    map (λ e. (e.0, shift_cursor idx delta range_idx_delta e.1)) cursors

-- `Vec::insert` at an index within the vector.
unfoldable pub insert_range : ℕ → Range → List Range → List Range
insert_range idx r ranges = take idx ranges ++ r ∷ drop idx ranges

-- The cursor of the inserting site where its range moves right.
abbrev pushed : ℕ → Cursor → Cursor
pushed n c = record c {
  internal_pos = add_u64 c.internal_pos n;
  editor_pos = add_u64 c.editor_pos n;
}

-- (b) In a live range.
unfoldable pub ins_live : InternalDoc → ℕ → Range → ℕ → Cursor → Option (InternalDoc × Cursor)
unfolding len shift_cursors_right
ins_live d idx range n c = some (
  record {
    ranges = set d.ranges idx (live (add_u64 (len range) n));
    cursors = shift_cursors_right (idx + 1) n 0 d.cursors;
  },
  c,
)

-- (c), (d) At the beginning of a dead range.
unfoldable pub ins_before : InternalDoc → ℕ → ℕ → Cursor → Option (InternalDoc × Cursor)
unfolding is_live len shift_cursors_right insert_range
ins_before d idx n c =
    if leb 1 idx
    then (get_elem? d.ranges (idx - 1) >>= λ before. assert (is_live before) (
        some (
          record {
            ranges = set d.ranges (idx - 1) (live (add_u64 (len before) n));
            cursors = shift_cursors_right idx n 0 d.cursors;
          },
          pushed n c,
        )))
    else some (
      record {
        ranges = insert_range idx (live n) d.ranges;
        cursors = shift_cursors_right idx n 1 d.cursors;
      },
      record (pushed n c) { range_idx = some (idx + 1) },
    )

-- (e), (f) At the end of a dead range.
unfoldable pub ins_after : InternalDoc → ℕ → ℕ → Cursor → Option (InternalDoc × Cursor)
unfolding is_live len shift_cursors_right
ins_after d idx n c =
    if ltb (idx + 1) (length d.ranges)
    then (get_elem? d.ranges (idx + 1) >>= λ after. assert (is_live after) (
        some (
          record {
            ranges = set d.ranges (idx + 1) (live (add_u64 (len after) n));
            cursors = shift_cursors_right (idx + 2) n 0 d.cursors;
          },
          c,
        )))
    else some (record d { ranges = d.ranges ++ live n ∷ [] }, c)

-- (g) Inside a dead range, which is cut in two: one `remove` and three `insert`s at its index.
unfoldable pub ins_inside : InternalDoc → ℕ → ℕ → ℕ → ℕ → Cursor → Option (InternalDoc × Cursor)
unfolding shift_cursors_right insert_range
ins_inside d idx dead_len pos n c =
    let mid = sub_u64 pos c.internal_pos in
    let removed = take idx d.ranges ++ drop (idx + 1) d.ranges in
    some (
      record {
        ranges =
            insert_range idx (dead mid)
              (insert_range idx (live n) (insert_range idx (dead (sub_u64 dead_len mid)) removed));
        cursors = shift_cursors_right (idx + 1) n 2 d.cursors;
      },
      record c { internal_pos = pos; range_idx = some (idx + 1) },
    )

-- The cases for a range that the cursor points to.
unfoldable pub ins_in_range :
    InternalDoc → ℕ → Range → ℕ → ℕ → Cursor → Option (InternalDoc × Cursor)
unfolding ins_live ins_before ins_after ins_inside
ins_in_range d idx (live m) pos n c = ins_live d idx (live m) n c
ins_in_range d idx (dead m) pos n c =
    if c.internal_pos == pos
    then ins_before d idx n c
    else if add_u64 c.internal_pos m == pos
    then ins_after d idx n c
    else ins_inside d idx m pos n c

unfoldable pub apply_ins : InternalDoc → ℕ → ℕ → Cursor → Option (InternalDoc × Cursor)
unfolding ins_in_range len
apply_ins d pos n c =
    if length d.ranges == 0
    then some (record d { ranges = d.ranges ++ live n ∷ [] }, c)
    else c.range_idx >>= λ idx. get_elem? d.ranges idx >>= λ range.
        assert (leb c.internal_pos pos)
          (assert (leb pos (add_u64 c.internal_pos (len range))) (ins_in_range d idx range pos n c))
