-- ===== src/InternalDoc/Convert.antt =====
-- `InternalDoc::convert_pos`: between editor positions and internal positions, along a cursor.
pub mod Measure
pub mod Walk
pub mod Back
pub mod Places
pub mod Result
use collab_mode.Prelude.{
  ℕ, zero, suc, ◌==◌, ltb, Bool, not, ◌&&◌, ◌||◌, Option, none, some, List, [], ◌∷◌, length,
  get_elem?, drop, add_u64, sub_u64, if◌then◌else◌, ◌>>=◌,
}
use collab_mode.InternalDoc.{Range, Cursor, is_live, len, live_len, cursor_pos}

-- A cursor at the beginning of the range with an index.
pub record Place : Type 0 where
  pub idx : ℕ
  pub range : Range
  pub cursor : Cursor

-- The cursor behind a range.
unfoldable pub step_forward : ℕ → Range → Cursor → Cursor
unfolding is_live len
step_forward idx range c = record {
  editor_pos = (if is_live range then add_u64 c.editor_pos (len range) else c.editor_pos);
  internal_pos = add_u64 c.internal_pos (len range);
  range_idx = some (suc idx);
}

-- The cursor before the range that ends at it.
unfoldable pub step_back : ℕ → Range → Cursor → Cursor
unfolding is_live len
step_back idx range c = record {
  editor_pos = (if is_live range then sub_u64 c.editor_pos (len range) else c.editor_pos);
  internal_pos = sub_u64 c.internal_pos (len range);
  range_idx = some idx;
}

-- The loop to the right; `rest` holds the ranges behind `range`, and reading past them panics.
unfoldable pub forward : ℕ → Bool → List Range → ℕ → Range → Cursor → Option Place
unfolding step_forward live_len len cursor_pos
forward pos editor [] idx range c =
    if ltb (add_u64 (cursor_pos c editor) (if editor then live_len range else len range)) pos
    then none
    else some (record { idx = idx; range = range; cursor = c })
forward pos editor (next ∷ rest) idx range c =
    let further = forward pos editor rest (suc idx) next (step_forward idx range c) in
    if ltb (add_u64 (cursor_pos c editor) (if editor then live_len range else len range)) pos
    then further
    else some (record { idx = idx; range = range; cursor = c })

-- The test of the loop to the left.
unfoldable pub goes_back : ℕ → Bool → ℕ → Range → Cursor → Bool
unfolding cursor_pos is_live
goes_back pos editor idx range c =
    ltb pos (cursor_pos c editor)
    || (editor && pos == cursor_pos c editor && is_live range && ltb 0 idx)

-- The loop to the left, down to the first range, before which it panics.
unfoldable pub backward : ℕ → Bool → List Range → ℕ → Range → Cursor → Option Place
unfolding goes_back step_back
backward pos editor ranges zero range c =
    if goes_back pos editor zero range c
    then none
    else some (record { idx = zero; range = range; cursor = c })
backward pos editor ranges (suc idx) range c =
    let further = λ (prev : Range). backward pos editor ranges idx prev (step_back idx prev c) in
    if goes_back pos editor (suc idx) range c
    then get_elem? ranges idx >>= further
    else some (record { idx = suc idx; range = range; cursor = c })

-- The position in the other document, with `pos` within the range of the place.
unfoldable pub position_in : ℕ → Bool → Place → ℕ
unfolding cursor_pos is_live
position_in pos editor p =
    let offset = sub_u64 pos (cursor_pos p.cursor editor) in
    let base = cursor_pos p.cursor (not editor) in
    if editor then add_u64 base offset else add_u64 base (if is_live p.range then offset else 0)

abbrev unwrap_or_zero : Option ℕ → ℕ
unwrap_or_zero none = 0
unwrap_or_zero (some i) = i

unfoldable pub convert_pos : List Range → ℕ → Cursor → Bool → Option (ℕ × Cursor)
unfolding forward backward position_in cursor_pos
convert_pos ranges pos cursor editor =
    if pos == 0
    then some (
      0,
      (if ltb 0 (length ranges)
          then record { editor_pos = 0; internal_pos = 0; range_idx = some 0 }
          else cursor),
    )
    else if pos == cursor_pos cursor editor
    then some (cursor_pos cursor (not editor), cursor)
    else if length ranges == 0
    then some (0, cursor)
    else (let idx = unwrap_or_zero cursor.range_idx in
        let c = if idx == 0 then record cursor { editor_pos = 0; internal_pos = 0 } else cursor in
        get_elem? ranges idx >>= λ range.
        (if ltb (cursor_pos c editor) pos
          then forward pos editor (drop (suc idx) ranges) idx range c
          else backward pos editor ranges idx range c)
        >>= λ place.
            some (position_in pos editor place, record place.cursor { range_idx = some place.idx }))
