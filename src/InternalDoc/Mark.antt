-- ===== src/InternalDoc/Mark.antt =====
-- `InternalDoc::apply_mark_dead` and `InternalDoc::apply_mark_live`. The two share one loop, over the
-- liveness that the mark gives: it is true for `apply_mark_live`.
pub mod Fuel
use collab_mode.Prelude.{
  ℕ, zero, suc, ◌+◌, ◌==◌, ltb, leb, min, max, Bool, true, false, not, ◌&&◌, Option, none, some,
  List, [], ◌∷◌, ◌++◌, length, add_u64, sub_u64, assert, if◌then◌else◌, ◌>>=◌,
}
use collab_mode.InternalDoc.{Range, Cursor, live, dead, is_live, len}
use collab_mode.InternalDoc.Iterator.{
  RangeIterator, range_len, extend_affected_range_right, contract_affected_range_right, move_right,
  move_to_beg,
}

-- The variables of the loop. `flipped_ranges` has the range that was pushed last in front.
pub record Marking : Type 0 where
  pub iter : RangeIterator
  pub range : Range
  pub marked_len : ℕ
  pub cursor : Cursor
  pub final_ranges : List Range
  pub flipped_ranges : List (ℕ × ℕ)
  pub flipped_ranges_len : ℕ

-- The assertion of `push_wo_dup`: the range does not touch the one pushed last.
unfoldable pub apart : ℕ → ℕ → List (ℕ × ℕ) → Bool
apart beg n [] = true
apart beg n ((lbeg, llen) ∷ _) = not (leb beg (add_u64 lbeg llen) && leb lbeg (add_u64 beg n))

-- The closure `push_wo_dup`.
unfoldable pub push_wo_dup : ℕ → ℕ → Marking → Option Marking
unfolding apart
push_wo_dup beg n m = assert (apart beg n m.flipped_ranges) (
    some (record m {
      flipped_ranges = (beg, n) ∷ m.flipped_ranges;
      flipped_ranges_len = add_u64 m.flipped_ranges_len n;
    }))

abbrev pub range_of : Bool → ℕ → Range
range_of true n = live n
range_of false n = dead n

abbrev pub has_liveness : Bool → Range → Bool
has_liveness true r = is_live r
has_liveness false r = not (is_live r)

-- The range begins left of the mark: it is kept in front, or the mark grows over it.
unfoldable pub mark_prefix : Bool → ℕ → ℕ → Marking → Option Marking
unfolding push_wo_dup move_to_beg is_live
mark_prefix target beg end m =
    if ltb m.iter.range_beg beg
    then (let prefix_len = sub_u64 beg m.iter.range_beg in
        if has_liveness target m.range
        then some
            (record m { marked_len = add_u64 m.marked_len prefix_len; cursor = move_to_beg m.iter })
        else push_wo_dup beg (sub_u64 (min end m.iter.range_end) beg)
            (record m { final_ranges = m.final_ranges ++ range_of (not target) prefix_len ∷ [] }))
    else some m

-- Push a range that is flipped from its beginning on.
unfoldable pub flip_unless_prefix : Bool → ℕ → ℕ → ℕ → Marking → Option Marking
unfolding push_wo_dup is_live
flip_unless_prefix target beg flipped_beg flipped_len m =
    if not (has_liveness target m.range) && not (ltb m.iter.range_beg beg)
    then push_wo_dup flipped_beg flipped_len m
    else some m

-- What is left of the range behind the mark.
unfoldable pub suffix_len : Bool → ℕ → Marking → ℕ
unfolding len
suffix_len false end m = sub_u64 m.iter.range_end end
suffix_len true end m = sub_u64 (len m.range) (sub_u64 end m.iter.range_beg)

-- The range ends right of the mark.
unfoldable pub mark_suffix : Bool → ℕ → ℕ → Marking → Option Marking
unfolding flip_unless_prefix suffix_len is_live
mark_suffix target beg end m =
    let rest = suffix_len target end m in
    if has_liveness target m.range
    then some (record m {
      marked_len = add_u64 m.marked_len rest;
      final_ranges = m.final_ranges ++ range_of target (add_u64 m.marked_len rest) ∷ [];
    })
    else (let flipped_beg = max m.iter.range_beg beg in
        flip_unless_prefix target beg flipped_beg (sub_u64 end flipped_beg) (record m {
          final_ranges =
              m.final_ranges ++ range_of target m.marked_len ∷ range_of (not target) rest ∷ [];
        }))

-- The mark also takes in a range behind it that has its liveness.
unfoldable pub take_in_next : Bool → List Range → Marking → Option Marking
unfolding move_right extend_affected_range_right range_len is_live
take_in_next target ranges m =
    if ltb (m.iter.range_idx + 1) (length ranges)
    then (move_right ranges m.iter >>= λ next. some (
        if has_liveness target next.1
        then record m {
          iter = extend_affected_range_right next.0;
          marked_len = add_u64 m.marked_len (range_len next.0);
        }
        else record m { iter = next.0 }))
    else some m

-- The range ends where the mark ends.
unfoldable pub mark_end : Bool → List Range → ℕ → Marking → Option Marking
unfolding flip_unless_prefix take_in_next range_len
mark_end target ranges beg m =
    flip_unless_prefix target beg m.iter.range_beg (range_len m.iter) m >>= λ m.
    take_in_next target ranges m >>= λ m.
    some (record m { final_ranges = m.final_ranges ++ range_of target m.marked_len ∷ [] })

pub data Control : Type 0 where
  stop : Marking → Control
  go_on : Marking → Control

-- The body of the loop, up to the move to the next range.
unfoldable pub mark_body : Bool → List Range → ℕ → ℕ → Marking → Option Control
unfolding contract_affected_range_right mark_prefix mark_suffix mark_end flip_unless_prefix
    range_len move_to_beg is_live
mark_body target ranges beg end m =
    if ltb m.iter.range_end beg
    then some (go_on (record m { iter = contract_affected_range_right m.iter }))
    else if m.iter.range_end == beg
    then (if has_liveness target m.range
        then some (
            go_on (record m {
              marked_len = add_u64 m.marked_len (range_len m.iter);
              cursor = move_to_beg m.iter;
            }))
        else some (go_on (record m { iter = contract_affected_range_right m.iter })))
    else mark_prefix target beg end m >>= λ m.
        if ltb end m.iter.range_end
        then (mark_suffix target beg end m >>= λ m. some (stop m))
        else if m.iter.range_end == end
        then (mark_end target ranges beg m >>= λ m. some (stop m))
        else flip_unless_prefix target beg m.iter.range_beg (range_len m.iter) m >>= λ m.
            some (go_on m)

-- The move to the next range, where the loop goes on.
unfoldable pub advance : List Range → Control → Option Control
unfolding move_right extend_affected_range_right
advance ranges (stop m) = some (stop m)
advance ranges (go_on m) = move_right ranges m.iter >>= λ next.
    assert (ltb next.0.range_idx (length ranges))
      (some (go_on (record m { iter = extend_affected_range_right next.0; range = next.1 })))

-- A round of the loop.
unfoldable pub mark_round : Bool → List Range → ℕ → ℕ → Marking → Option Control
unfolding mark_body advance
mark_round target ranges beg end m =
    mark_body target ranges beg end m >>= λ control. advance ranges control

-- The loop. Each round moves one range to the right, and reading past the last one panics, so that
-- one more round than there are ranges is fuel enough.
unfoldable pub mark_loop : Bool → List Range → ℕ → ℕ → ℕ → Marking → Option Marking
unfolding mark_round
mark_loop target ranges beg end zero m = none
mark_loop target ranges beg end (suc fuel) m = mark_round target ranges beg end m >>= λ control.
    elim control [ stop m' ↦ some m' | go_on m' ↦ mark_loop target ranges beg end fuel m' ]
