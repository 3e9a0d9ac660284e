-- ===== src/InternalDoc/Iterator.antt =====
-- `RangeIterator`: a walk over the ranges, which also tracks the ranges that a mark replaces.
use collab_mode.Prelude.{ℕ, ◌+◌, Bool, Option, some, List, get_elem?, add_u64, sub_u64, ◌>>=◌}
use collab_mode.InternalDoc.{Range, Cursor, is_live, len, live_len}

pub record RangeIterator : Type 0 where
  pub range_idx : ℕ
  pub range_beg : ℕ
  pub range_end : ℕ
  pub live_range : Bool
  pub editor_range_beg : ℕ
  pub editor_range_end : ℕ
  pub affected_ranges_idx_beg : ℕ
  pub affected_ranges_idx_end : ℕ

-- `RangeIterator::new`, with the current range.
unfoldable pub start : List Range → Cursor → Option (RangeIterator × Range)
unfolding is_live len live_len
start ranges c = c.range_idx >>= λ idx. get_elem? ranges idx >>= λ range. some (
  record {
    range_idx = idx;
    range_beg = c.internal_pos;
    range_end = add_u64 c.internal_pos (len range);
    live_range = is_live range;
    editor_range_beg = c.editor_pos;
    editor_range_end = add_u64 c.editor_pos (live_len range);
    affected_ranges_idx_beg = idx;
    affected_ranges_idx_end = idx + 1;
  },
  range,
)

unfoldable pub range_len : RangeIterator → ℕ
range_len it = sub_u64 it.range_end it.range_beg

unfoldable pub shift_affected_range_left : RangeIterator → RangeIterator
shift_affected_range_left it = record it {
  affected_ranges_idx_beg = sub_u64 it.affected_ranges_idx_beg 1;
  affected_ranges_idx_end = sub_u64 it.affected_ranges_idx_end 1;
}

unfoldable pub extend_affected_range_right : RangeIterator → RangeIterator
extend_affected_range_right it = record it {
  affected_ranges_idx_end = it.affected_ranges_idx_end + 1;
}

unfoldable pub contract_affected_range_right : RangeIterator → RangeIterator
contract_affected_range_right it = record it {
  affected_ranges_idx_beg = it.affected_ranges_idx_beg + 1;
}

-- Before the first range the index wraps, and reading there panics.
unfoldable pub move_left : List Range → RangeIterator → Option (RangeIterator × Range)
unfolding is_live len live_len
move_left ranges it =
    let idx = sub_u64 it.range_idx 1 in
    get_elem? ranges idx >>= λ range. some (
      record it {
        range_idx = idx;
        range_end = it.range_beg;
        range_beg = sub_u64 it.range_beg (len range);
        live_range = is_live range;
        editor_range_end = it.editor_range_beg;
        editor_range_beg = sub_u64 it.editor_range_beg (live_len range);
      },
      range,
    )

unfoldable pub move_right : List Range → RangeIterator → Option (RangeIterator × Range)
unfolding is_live len live_len
move_right ranges it = get_elem? ranges (it.range_idx + 1) >>= λ range. some (
  record it {
    range_idx = it.range_idx + 1;
    range_beg = it.range_end;
    range_end = add_u64 it.range_end (len range);
    live_range = is_live range;
    editor_range_beg = it.editor_range_end;
    editor_range_end = add_u64 it.editor_range_end (live_len range);
  },
  range,
)

-- `Cursor::move_to_beg`
unfoldable pub move_to_beg : RangeIterator → Cursor
move_to_beg it = record {
  internal_pos = it.range_beg;
  editor_pos = it.editor_range_beg;
  range_idx = some it.range_idx;
}
