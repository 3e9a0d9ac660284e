-- ===== src/Tests/Ranges.antt =====
-- The theorems on the internal document at concrete inputs.
use collab_mode.Prelude.{false, Text, none, refl, some, List, [], ◌∷◌, arith, true, inr}
use collab_mode.InternalDoc.{Range, Cursor, InternalDoc, live, dead, is_live, len, live_len}
use collab_mode.Document.{Document, shown}
use collab_mode.InternalDoc.Mark.{Marking, mark_loop}
use collab_mode.InternalDoc.Mark.Fuel.{Loop, mark_loop-Loop}
use collab_mode.InternalDoc.Edits.Synced.{
  Represents, Sent, Followed, convert_editor_op_and_apply-Sent,
  convert_internal_op_and_apply-Followed,
}
use collab_mode.InternalDoc.Flags.{flags}
use collab_mode.Op.{ins}
use collab_mode.Types.{EditorOp}
use collab_mode.InternalDoc.Flags.{total, Coalesced}
use collab_mode.InternalDoc.Edits.{convert_editor_op_and_apply, convert_internal_op_and_apply}
use collab_mode.InternalDoc.Convert.{convert_pos}
use collab_mode.InternalDoc.Convert.Measure.{measure}
use collab_mode.InternalDoc.Convert.Places.{Points, Converted}
use collab_mode.InternalDoc.Convert.Result.{convert_pos-Converted}
use collab_mode.InternalDoc.Insert.{apply_ins}
use collab_mode.InternalDoc.Convert.Walk.{IsAt}
use collab_mode.InternalDoc.Insert.Result.{Inserted, apply_ins-Inserted}

abbrev pub ranges : List Range
ranges = live 2 ∷ dead 3 ∷ live 1 ∷ []

abbrev pub cursor : Cursor
cursor = record { editor_pos = 2; internal_pos = 2; range_idx = some 1 }

pub tombstone-IsAt : IsAt ranges (live 2 ∷ []) (live 1 ∷ []) (dead 3) cursor
unfolding is_live len live_len total measure
tombstone-IsAt = record { around = refl; internal = refl; editor = refl }

abbrev pub points : Points ranges cursor
points = record {
  before = live 2 ∷ [];
  after = live 1 ∷ [];
  range = dead 3;
  at = tombstone-IsAt;
  index = refl;
}

abbrev pub doc : InternalDoc
doc = record { ranges = ranges; cursors = (7, cursor) ∷ [] }

abbrev pub hello : Text
hello = 104 ∷ 105 ∷ []

ranges-Coalesced : Coalesced none ranges
unfolding len is_live
ranges-Coalesced = (omega arith, (λ e. cc), (omega arith, (λ e. cc), (omega arith, (λ e. cc), tt)))

-- In the middle of the tombstone, which the cursor of another site stands at.
apply_ins-Inserted_example :
    Inserted
      (apply_ins (record { ranges = ranges; cursors = (7, cursor) ∷ [] }) 3 4 cursor)
      ranges
      3
      4
unfolding len is_live total
apply_ins-Inserted_example =
    apply_ins-Inserted ((7, cursor) ∷ []) (live 2 ∷ []) (live 1 ∷ []) (dead 3) 3 4 cursor
      (omega arith) (omega arith, (λ e. cc), (omega arith, (λ e. cc), (omega arith, (λ e. cc), tt)))
      (inr points, tt) tombstone-IsAt refl (omega arith) (omega arith) (omega arith)

-- The end of the document, past the tombstone.
convert_pos-Converted_example : Converted ranges 3 true (convert_pos ranges 3 cursor true)
unfolding is_live len live_len total measure
convert_pos-Converted_example =
    convert_pos-Converted (live 2) (dead 3 ∷ live 1 ∷ []) 3 cursor true (omega arith) (inr points)
      (omega arith)

abbrev pub chars : Document
chars =
    record { char = 97; live = true }
    ∷ record { char = 98; live = true }
    ∷ record { char = 99; live = false }
    ∷ record { char = 100; live = false }
    ∷ record { char = 101; live = false }
    ∷ record { char = 102; live = true }
    ∷ []

pub doc-Represents : Represents doc chars
unfolding flags
doc-Represents = record { same = refl; coalesced = ranges-Coalesced; valid = (inr points, tt) }

-- The site's own cursor is used.
convert_editor_op_and_apply-Sent_example :
    Sent (convert_editor_op_and_apply doc (EditorOp.ins 3 hello) 7) chars 3 hello 7
unfolding shown
convert_editor_op_and_apply-Sent_example =
    convert_editor_op_and_apply-Sent doc chars 3 hello 7 doc-Represents (omega arith) (omega arith)
      (omega arith)

-- A site without a cursor.
convert_internal_op_and_apply-Followed_example :
    Followed (convert_internal_op_and_apply doc (ins (4, hello) 2)) chars (ins (4, hello) 2) hello
convert_internal_op_and_apply-Followed_example =
    convert_internal_op_and_apply-Followed doc chars 4 hello 2 doc-Represents (omega arith)
      (omega arith) (omega arith)

-- At the first of three ranges.
abbrev marking : Marking
marking = record {
  iter = record {
    range_idx = 0;
    range_beg = 0;
    range_end = 2;
    live_range = true;
    editor_range_beg = 0;
    editor_range_end = 2;
    affected_ranges_idx_beg = 0;
    affected_ranges_idx_end = 1;
  };
  range = live 2;
  marked_len = 5;
  cursor = record { editor_pos = 0; internal_pos = 0; range_idx = some 0 };
  final_ranges = [];
  flipped_ranges = [];
  flipped_ranges_len = 0;
}

mark_loop-Loop_example : Loop false ranges 1 6 marking (mark_loop false ranges 1 6 3 marking)
mark_loop-Loop_example = mark_loop-Loop false ranges 1 6 3 marking (omega arith) (omega arith)
