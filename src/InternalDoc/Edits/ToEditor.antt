-- ===== src/InternalDoc/Edits/ToEditor.antt =====
-- An insertion into the internal document, and the instruction to the editor that it gives:
-- `convert_internal_op_and_apply`.
use collab_mode.Prelude.{
  ℕ, ◌+◌, ◌^◌, ◌≤◌, ◌<◌, ◌≡◌, inl, inr, refl, ap, ◌∙◌, false, Option, none, some, List, [], ◌∷◌,
  arith, Text, length, length-append, ◌>>=◌,
}
use collab_mode.Op.{ins}
use collab_mode.Types.{EditInstruction}
use collab_mode.InternalDoc.{Range, live, Cursor, InternalDoc, len, origin, put, lookup, is_live}
use collab_mode.InternalDoc.Flags.{total, flags, insert_flags, Coalesced}
use collab_mode.InternalDoc.Convert.{convert_pos}
use collab_mode.InternalDoc.Convert.Measure.{measure-total, live_before}
use collab_mode.InternalDoc.Convert.Result.{Usable, convert_pos-Converted}
use collab_mode.InternalDoc.Insert.{apply_ins}
use collab_mode.InternalDoc.Insert.Cursors.{Valid, append-Valid}
use collab_mode.InternalDoc.Edits.{finish, convert_internal_op_and_apply}
use collab_mode.InternalDoc.Edits.FromEditor.{
  Inserted-bound, apply_ins-Points, get_cursor-none, get_cursor-some,
}
use collab_mode.InternalDoc.Cursors.{lookup-Usable, put-Valid, finish-Valid}

-- The call returns the instruction to insert the text at the position that the internal one has in
-- the editor, and a document into which it was inserted.
pub record Shown (result : Option (EditInstruction × InternalDoc)) (rs : List Range) (pos : ℕ)
    (text : Text) : Type 0 where
  pub document : InternalDoc
  pub returns :
      result
      ≡ some (
        EditInstruction.ins (record { pos = live_before pos (flags rs); content = text } ∷ []),
        document,
      )
  pub inserts : flags document.ranges ≡ insert_flags pos (length text) (flags rs)
  pub coalesced : Coalesced none document.ranges
  pub valid : Valid document.ranges document.cursors

abbrev show_with :
    List Range → List (ℕ × Cursor) → Cursor → ℕ → Text → ℕ → Option (EditInstruction × InternalDoc)
show_with rs cs c pos text s = convert_pos rs pos c false >>= λ at.
    apply_ins (record { ranges = rs; cursors = cs }) pos (length text) at.1 >>= λ done.
    finish s done.1 done.0 >>= λ d.
    some (EditInstruction.ins (record { pos = at.0; content = text } ∷ []), d)

convert_pos-empty : (pos : ℕ) (c : Cursor) → pos ≡ 0 → convert_pos [] pos c false ≡ some (0, c)
unfolding convert_pos
convert_pos-empty pos c e = rw e

empty-Shown :
    (cs : List (ℕ × Cursor)) (c : Cursor) (text : Text) (s : ℕ)
    → 0 < length text
    → Valid [] cs
    → c ≡ origin
    → length text < 2 ^ 64
    → Shown (show_with [] cs c 0 text s) [] 0 text
unfolding apply_ins flags insert_flags live_before total len is_live
empty-Shown cs c text s some_text v u bound =
    let ranges : List Range = live (length text) ∷ [] in
    let co : Coalesced none ranges = (some_text, (λ e. cc), tt) in
    let v' : Valid ranges cs = append-Valid [] ranges cs v in
    let done =
      finish-Valid s c (record { ranges = ranges; cursors = cs }) co (omega arith) v' (inl u) in
    record {
      document = record { ranges = ranges; cursors = put s c cs };
      returns = rw (convert_pos-empty 0 c refl) (rw done refl);
      inserts = refl;
      coalesced = co;
      valid = put-Valid s ranges c cs v' (inl u);
    }

show_with-Shown :
    (rs : List Range) (cs : List (ℕ × Cursor)) (c : Cursor) (pos : ℕ) (text : Text) (s : ℕ)
    → 0 < length text
    → Coalesced none rs
    → Valid rs cs
    → Usable rs c
    → pos ≤ total rs
    → total rs + length text < 2 ^ 64
    → Shown (show_with rs cs c pos text s) rs pos text
unfolding total
show_with-Shown [] cs c pos text s some_text co v (inl u) hi bound =
    let e : pos ≡ 0 = omega arith in rw e (empty-Shown cs c text s some_text v u (omega arith))
show_with-Shown [] cs c pos text s some_text co v (inr p) hi bound =
    absurd (omega (arith, ap length p.at.around, length-append p.before (p.range ∷ p.after)))
show_with-Shown (r ∷ rest) cs c pos text s some_text co v u hi bound =
    let at =
      convert_pos-Converted r rest pos c false (omega arith) u
        (omega (arith, measure-total (r ∷ rest))) in
    let i =
      apply_ins-Points (r ∷ rest) cs at.cursor pos (length text) some_text co v at.points
        (omega (arith, at.low, at.given)) (omega (arith, at.high, at.given)) bound in
    let done =
      finish-Valid s i.cursor i.document i.coalesced (omega (arith, Inserted-bound i)) i.valid
        (inr i.points) in
    let where_shown : live_before pos (flags (r ∷ rest)) ≡ at.editor_position =
      ap (λ q. live_before q (flags (r ∷ rest))) at.given ∙ at.corresponds in
    record {
      document = record i.document { cursors = put s i.cursor i.document.cursors };
      returns = rw where_shown (rw at.returns (rw i.returns (rw done refl)));
      inserts = i.inserts;
      coalesced = i.coalesced;
      valid = put-Valid s i.document.ranges i.cursor i.document.cursors i.valid (inr i.points);
    }

with_cursor-Shown :
    (d : InternalDoc) (pos : ℕ) (text : Text) (s : ℕ) (found : Option Cursor)
    → lookup s d.cursors ≡ found
    → 0 < length text
    → Coalesced none d.ranges
    → Valid d.ranges d.cursors
    → pos ≤ total d.ranges
    → total d.ranges + length text < 2 ^ 64
    → Shown (convert_internal_op_and_apply d (ins (pos, text) s)) d.ranges pos text
unfolding convert_internal_op_and_apply
with_cursor-Shown d pos text s none e some_text co v hi bound = rw (get_cursor-none d s e) (
    show_with-Shown d.ranges (put s origin d.cursors) origin pos text s some_text co
      (put-Valid s d.ranges origin d.cursors v (inl refl)) (inl refl) hi bound)
with_cursor-Shown d pos text s (some c) e some_text co v hi bound = rw (get_cursor-some d s c e) (
    show_with-Shown d.ranges d.cursors c pos text s some_text co v
      (lookup-Usable s d.ranges d.cursors c v e) hi bound)

-- Let the ranges of a document be coalesced, its cursors be new or stand at ranges, the text not be
-- empty, the position be at most the internal length, and the length with the text stay below
-- `2 ^ 64`. Then `convert_internal_op_and_apply` of an insertion neither panics nor exits in
-- `check_cursor_positions`. It tells the editor to insert the text behind as many characters as live
-- ones stand before the position, inserts the text's live characters at the position, and the
-- document is again one with coalesced ranges and cursors that stand at ranges.
pub convert_internal_op_and_apply-Shown :
    (d : InternalDoc) (pos : ℕ) (text : Text) (s : ℕ)
    → 0 < length text
    → Coalesced none d.ranges
    → Valid d.ranges d.cursors
    → pos ≤ total d.ranges
    → total d.ranges + length text < 2 ^ 64
    → Shown (convert_internal_op_and_apply d (ins (pos, text) s)) d.ranges pos text
convert_internal_op_and_apply-Shown d pos text s =
    with_cursor-Shown d pos text s (lookup s d.cursors) refl
