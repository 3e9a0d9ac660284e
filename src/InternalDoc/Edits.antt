-- ===== src/InternalDoc/Edits.antt =====
-- `InternalDoc::mark_to_ins_or_del` and the two conversions that also apply an operation.
pub mod FromEditor
pub mod ToEditor
pub mod Synced
pub mod Lengths
use collab_mode.Prelude.{
  ℕ, zero, suc, ◌+◌, ◌==◌, ltb, leb, min, max, Bool, true, false, not, ◌&&◌, Option, none, some,
  List, [], ◌∷◌, ◌++◌, map, length, take, drop, Text, add_u64, sub_u64, assert, if◌then◌else◌,
  ◌>>=◌,
}
use collab_mode.Op.{Op, Segment, ins, mark, site}
use collab_mode.Types.{EditorOp, Edit, EditInstruction}
use collab_mode.InternalDoc.{Range, Cursor, InternalDoc, get_cursor, put, check_cursor_positions}
use collab_mode.InternalDoc.Convert.{convert_pos}
use collab_mode.InternalDoc.Insert.{apply_ins}
use collab_mode.InternalDoc.Iterator.{RangeIterator, start, move_right}
use collab_mode.InternalDoc.Apply.{apply_mark_dead, apply_mark_live}

-- The characters of a text from one index up to another.
abbrev slice : ℕ → ℕ → Text → Text
slice from to text = take (sub_u64 to from) (drop from text)

-- What one range contributes; `none` where the code panics.
unfoldable pub capture : Bool → ℕ → ℕ → Text → RangeIterator → Option (List Segment)
capture target beg end text it =
    let differs = if target then not it.live_range else it.live_range in
    if differs && leb it.range_beg beg && ltb beg it.range_end
    then some (
        (
          (if it.live_range
              then add_u64 it.editor_range_beg (sub_u64 beg it.range_beg)
              else it.editor_range_beg),
          slice 0 (sub_u64 (min it.range_end end) beg) text,
        )
        ∷ [])
    else if differs && leb it.range_beg end && leb end it.range_end
    then some
        ((it.editor_range_beg, slice (sub_u64 (max it.range_beg beg) beg) (length text) text) ∷ [])
    else if differs && ltb beg it.range_beg && leb it.range_end end
    then some (
        (it.editor_range_beg, slice (sub_u64 it.range_beg beg) (sub_u64 it.range_end beg) text)
        ∷ [])
    else assert (not (differs && ltb it.range_beg end && ltb beg it.range_end)) (some [])

-- The loop over the ranges, with fuel for one round for each range.
unfoldable pub capture_loop :
    Bool → List Range → ℕ → ℕ → Text → ℕ → RangeIterator → Option (List Segment)
unfolding capture move_right
capture_loop target ranges beg end text zero it = none
capture_loop target ranges beg end text (suc fuel) it =
    let further = λ (it : RangeIterator). capture_loop target ranges beg end text fuel it in
    capture target beg end text it >>= λ captured.
    if it.range_idx + 1 == length ranges
    then some captured
    else move_right ranges it >>= λ next.
        if leb end next.0.range_beg
        then some captured
        else further next.0 >>= λ rest. some (captured ++ rest)

-- The segments are appended to `edits`.
unfoldable pub mark_to_ins_or_del :
    List Range → ℕ → Text → Cursor → List Segment → Bool → Option (List Segment)
unfolding capture_loop start
mark_to_ins_or_del ranges pos [] cursor edits target = some edits
mark_to_ins_or_del ranges pos (c ∷ cs) cursor edits target =
    let text = c ∷ cs in
    start ranges cursor >>= λ first.
    capture_loop target ranges pos (add_u64 pos (length text)) text (suc (length ranges)) first.0
    >>= λ captured. some (edits ++ captured)

-- The text of a deletion is dealt out to the ranges that it flipped.
unfoldable pub deal_text : ℕ → Text → List (ℕ × ℕ) → List Segment
deal_text text_idx text [] = []
deal_text text_idx text ((pos, n) ∷ rest) =
    (pos, take n (drop text_idx text)) ∷ deal_text (text_idx + n) text rest

-- The document with the cursor of the site put back, unless a cursor is found to be wrong.
unfoldable pub finish : ℕ → Cursor → InternalDoc → Option InternalDoc
unfolding put check_cursor_positions
finish s cursor d =
    let cursors = put s cursor d.cursors in
    assert (check_cursor_positions d.ranges cursors) (some (record d { cursors = cursors }))

unfoldable pub convert_editor_op_and_apply : InternalDoc → EditorOp → ℕ → Option (Op × InternalDoc)
unfolding get_cursor convert_pos apply_ins apply_mark_dead deal_text finish
convert_editor_op_and_apply d (EditorOp.ins pos text) s =
    let (cursor, d) = get_cursor d s in
    convert_pos d.ranges pos cursor true >>= λ at. apply_ins d at.0 (length text) at.1 >>= λ done.
    finish s done.1 done.0 >>= λ d. some (ins (at.0, text) s, d)
convert_editor_op_and_apply d (EditorOp.del pos text) s =
    let (cursor, d) = get_cursor d s in
    convert_pos d.ranges pos cursor true >>= λ at.
    convert_pos d.ranges (add_u64 pos (length text)) at.1 true >>= λ to.
    apply_mark_dead d at.0 (sub_u64 to.0 at.0) at.1 >>= λ done.
    finish s done.1 done.0 >>= λ d. some (mark (deal_text 0 text done.2) false s, d)
convert_editor_op_and_apply d (EditorOp.undo _) s = none
convert_editor_op_and_apply d (EditorOp.redo _) s = none

-- The first loop over the segments of a mark, which converts them.
unfoldable pub convert_segments :
    List Range → Bool → List Segment → Cursor → List Segment → Option (List Segment × Cursor)
unfolding convert_pos mark_to_ins_or_del
convert_segments ranges target [] cursor edits = some (edits, cursor)
convert_segments ranges target ((pos, text) ∷ rest) cursor edits =
    let further = λ (cursor : Cursor) (edits : List Segment).
      convert_segments ranges target rest cursor edits in
    convert_pos ranges pos cursor false >>= λ at.
    mark_to_ins_or_del ranges pos text at.1 edits target >>= λ edits. further at.1 edits

-- The second loop, which applies them.
unfoldable pub apply_segments :
    Bool → List Segment → InternalDoc → Cursor → Option (InternalDoc × Cursor)
unfolding convert_pos apply_mark_live apply_mark_dead
apply_segments target [] d cursor = some (d, cursor)
apply_segments target ((pos, text) ∷ rest) d cursor =
    let further = λ (d : InternalDoc) (cursor : Cursor). apply_segments target rest d cursor in
    convert_pos d.ranges pos cursor false >>= λ at.
    (if target
      then apply_mark_live d pos (length text) at.1
      else (apply_mark_dead d pos (length text) at.1 >>= λ r. some (r.0, r.1)))
    >>= λ done. further done.0 done.1

abbrev to_edits : List Segment → List Edit
to_edits segs = map (λ s. record { pos = s.0; content = s.1 }) segs

unfoldable pub convert_internal_op_and_apply :
    InternalDoc → Op → Option (EditInstruction × InternalDoc)
unfolding get_cursor convert_pos apply_ins convert_segments apply_segments finish site
convert_internal_op_and_apply d (ins (pos, text) s) =
    let (cursor, d) = get_cursor d s in
    convert_pos d.ranges pos cursor false >>= λ at. apply_ins d pos (length text) at.1 >>= λ done.
    finish s done.1 done.0 >>= λ d. some (EditInstruction.ins (to_edits ((at.0, text) ∷ [])), d)
convert_internal_op_and_apply d (mark edits target s) =
    let (cursor, d) = get_cursor d s in
    convert_segments d.ranges target edits cursor [] >>= λ converted.
    apply_segments target edits d converted.1 >>= λ done. finish s done.1 done.0 >>= λ d. some (
      (if target
          then EditInstruction.ins (to_edits converted.0)
          else EditInstruction.del (to_edits converted.0)),
      d,
    )
