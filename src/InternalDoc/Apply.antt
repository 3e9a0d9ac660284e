-- ===== src/InternalDoc/Apply.antt =====
-- `InternalDoc::apply_mark_dead` and `InternalDoc::apply_mark_live` around their loop.
use collab_mode.Prelude.{
  ℕ, suc, ltb, leb, Bool, true, false, ◌&&◌, Option, none, some, List, [], ◌++◌, map, length, take,
  drop, reverse, add_u64, sub_u64, assert, if◌then◌else◌, ◌>>=◌,
}
use collab_mode.Prelude.Int.{ℤ, to_i64, neg, sub_ℕ, abs, is_positive}
use collab_mode.InternalDoc.{Range, Cursor, InternalDoc}
use collab_mode.InternalDoc.Iterator.{start, shift_affected_range_left, move_left}
use collab_mode.InternalDoc.Mark.{Marking, mark_loop}

abbrev shift_by : ℤ → ℕ → ℕ
shift_by delta n = if is_positive delta then add_u64 n (abs delta) else sub_u64 n (abs delta)

-- `Cursor::shift`
unfoldable pub shift : ℤ → ℤ → Cursor → Cursor
shift editor_pos_delta range_idx_delta c = record c {
  editor_pos = shift_by editor_pos_delta c.editor_pos;
  range_idx = elim c.range_idx [ none ↦ none | some idx ↦ some (shift_by range_idx_delta idx) ];
}

-- A cursor after the ranges from `beg` up to `end` were replaced.
unfoldable pub follow_splice : ℕ → ℕ → ℤ → ℤ → Cursor → Cursor → Cursor
unfolding shift
follow_splice beg end editor_pos_delta range_idx_delta cursor other = elim other.range_idx [
  | none ↦ other
  | some idx ↦
      (if leb beg idx && ltb idx end
        then cursor
        else if leb end idx
        then shift editor_pos_delta range_idx_delta other
        else other)
]

-- The variables at the start of the loop. It begins one range to the left where there is one, so
-- as to merge with it.
unfoldable pub begin_marking : List Range → ℕ → ℕ → Cursor → Option Marking
unfolding start move_left shift_affected_range_left
begin_marking ranges beg n cursor = start ranges cursor >>= λ first.
    assert (leb first.0.range_beg beg) (
      (if ltb beg first.0.range_end && ltb 0 first.0.range_idx
        then (move_left ranges first.0 >>= λ left. some (shift_affected_range_left left.0, left.1))
        else some first)
      >>= λ at. some (record {
        iter = at.0;
        range = at.1;
        marked_len = n;
        cursor = cursor;
        final_ranges = [];
        flipped_ranges = [];
        flipped_ranges_len = 0;
      }))

-- The replacement of the affected ranges, and the cursors of all sites after it.
unfoldable pub finish_marking : Bool → InternalDoc → Marking → Option InternalDoc
unfolding follow_splice
finish_marking target d m =
    let beg = m.iter.affected_ranges_idx_beg in
    let end = m.iter.affected_ranges_idx_end in
    let range_idx_delta = sub_ℕ (length m.final_ranges) (sub_u64 end beg) in
    let flipped = to_i64 m.flipped_ranges_len in
    let editor_pos_delta = if target then flipped else neg flipped in
    assert (leb beg end && leb end (length d.ranges)) (
      some (record {
        ranges = take beg d.ranges ++ m.final_ranges ++ drop end d.ranges;
        cursors =
            map (λ e. (e.0, follow_splice beg end editor_pos_delta range_idx_delta m.cursor e.1))
              d.cursors;
      }))

-- The new document, the cursor and the flipped ranges.
unfoldable pub apply_mark :
    Bool → InternalDoc → ℕ → ℕ → Cursor → Option (InternalDoc × Cursor × List (ℕ × ℕ))
unfolding begin_marking mark_loop finish_marking
apply_mark target d beg n cursor = begin_marking d.ranges beg n cursor >>= λ m.
    mark_loop target d.ranges beg (add_u64 beg n) (suc (length d.ranges)) m >>= λ m.
    finish_marking target d m >>= λ d'. some (d', m.cursor, reverse m.flipped_ranges)

unfoldable pub apply_mark_dead :
    InternalDoc → ℕ → ℕ → Cursor → Option (InternalDoc × Cursor × List (ℕ × ℕ))
unfolding apply_mark
apply_mark_dead = apply_mark false

unfoldable pub apply_mark_live : InternalDoc → ℕ → ℕ → Cursor → Option (InternalDoc × Cursor)
unfolding apply_mark
apply_mark_live d beg n cursor = apply_mark true d beg n cursor >>= λ r. some (r.0, r.1)
