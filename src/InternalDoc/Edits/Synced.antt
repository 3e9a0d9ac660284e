-- ===== src/InternalDoc/Edits/Synced.antt =====
-- The internal document, the document that it stands for and the text in the editor stay in step
-- over insertions.
use collab_mode.Prelude.{
  ℕ, zero, suc, ◌+◌, ◌^◌, ◌≤◌, ◌<◌, ◌≡◌, refl, sym, ap, ◌∙◌, Bool, true, false, Option, none, some,
  [], ◌∷◌, ◌++◌, append-nil, arith, Text, length, length-map,
}
use collab_mode.Op.{Op, ins}
use collab_mode.Types.{EditorOp, EditInstruction}
use collab_mode.Document.{Document, cells, insert_at, apply, shown}
use collab_mode.InternalDoc.{InternalDoc}
use collab_mode.InternalDoc.Flags.{
  total, insert_flags, flags, length-flags, Coalesced, liveness, liveness-insert_at,
}
use collab_mode.InternalDoc.Convert.Measure.{measure, live_before, live_before-skip}
use collab_mode.InternalDoc.Insert.Cursors.{Valid}
use collab_mode.InternalDoc.Edits.{convert_editor_op_and_apply, convert_internal_op_and_apply}
use collab_mode.InternalDoc.Edits.FromEditor.{convert_editor_op_and_apply-Applied}
use collab_mode.InternalDoc.Edits.ToEditor.{convert_internal_op_and_apply-Shown}

-- An insertion into a text.
unfoldable pub insert_text : ℕ → Text → Text → Text
insert_text zero t s = t ++ s
insert_text (suc p) t [] = t
insert_text (suc p) t (c ∷ s) = c ∷ insert_text p t s

-- The internal document stands for a document, and is well formed.
pub record Represents (d : InternalDoc) (doc : Document) : Type 0 where
  pub same : flags d.ranges ≡ liveness doc
  pub coalesced : Coalesced none d.ranges
  pub valid : Valid d.ranges d.cursors

shown-cells : (t : Text) (d : Document) → shown (cells t ++ d) ≡ t ++ shown d
unfolding shown
shown-cells [] d = refl
shown-cells (c ∷ t) d = ap (c ∷◌) (shown-cells t d)

shown-insert_at_cons :
    (ch : ℕ) (b : Bool) (p : ℕ) (t : Text) (d : Document)
    → insert_text (live_before p (liveness d)) t (shown d) ≡ shown (insert_at p t d)
    → insert_text
        (live_before (suc p) (b ∷ liveness d))
        t
        (shown (record { char = ch; live = b } ∷ d))
      ≡ shown (record { char = ch; live = b } ∷ insert_at p t d)
unfolding shown insert_text live_before
shown-insert_at_cons ch true p t d ih = ap (ch ∷◌) ih
shown-insert_at_cons ch false p t d ih = ih

-- The editor's text follows an insertion.
shown-insert_at :
    (p : ℕ) (t : Text) (d : Document)
    → insert_text (live_before p (liveness d)) t (shown d) ≡ shown (insert_at p t d)
unfolding live_before insert_at insert_text
shown-insert_at zero t d = sym (shown-cells t d)
shown-insert_at (suc p) t [] =
    unfold shown in (sym (unfold shown in shown-cells t []) ∙ ap shown (append-nil (cells t)))
shown-insert_at (suc p) t (c ∷ d) = shown-insert_at_cons c.char c.live p t d (shown-insert_at p t d)

length-shown_cons :
    (ch : ℕ) (b : Bool) (d : Document)
    → length (shown d) ≡ live_before (length d) (liveness d)
    → length (shown (record { char = ch; live = b } ∷ d))
      ≡ live_before (suc (length d)) (b ∷ liveness d)
unfolding shown live_before
length-shown_cons ch true d ih = ap suc ih
length-shown_cons ch false d ih = ih

length-shown : (d : Document) → length (shown d) ≡ live_before (length d) (liveness d)
unfolding live_before
length-shown [] = unfold shown in refl
length-shown (c ∷ d) = length-shown_cons c.char c.live d (length-shown d)

live_before-le_cons :
    (p ch : ℕ) (b : Bool) (d : Document)
    → live_before p (liveness d) ≤ length (shown d)
    → live_before (suc p) (b ∷ liveness d) ≤ length (shown (record { char = ch; live = b } ∷ d))
unfolding shown live_before
live_before-le_cons p ch true d ih = omega arith
live_before-le_cons p ch false d ih = ih

live_before-le-shown : (p : ℕ) (d : Document) → live_before p (liveness d) ≤ length (shown d)
unfolding live_before
live_before-le-shown zero d = omega arith
live_before-le-shown (suc p) [] = omega arith
live_before-le-shown (suc p) (c ∷ d) =
    live_before-le_cons p c.char c.live d (live_before-le-shown p d)

module _ (d : InternalDoc) (doc : Document) (r : Represents d doc) where
  pub total-Represents : total d.ranges ≡ length doc
  total-Represents = sym (length-flags d.ranges) ∙ ap length r.same ∙ length-map (λ c. c.live) doc

  pub measure-Represents : measure true d.ranges ≡ length (shown doc)
  unfolding live_before
  measure-Represents =
      sym counted ∙ ap (λ fs. live_before (length doc) fs) r.same ∙ sym (length-shown doc)
    where
      counted : live_before (length doc) (flags d.ranges) ≡ measure true d.ranges
      counted =
          ap (λ rs. live_before (length doc) (flags rs)) (sym (append-nil d.ranges))
          ∙ live_before-skip d.ranges [] 0 (length doc) (omega (arith, total-Represents))
          ∙ omega arith

-- The call returns an insertion, and a document that stands for the old one with it applied; the
-- text of the editor, which inserted at `pos`, is what that document shows.
pub record Sent (result : Option (Op × InternalDoc)) (doc : Document) (pos : ℕ) (text : Text)
    (s : ℕ) : Type 0 where
  pub position : ℕ
  pub document : InternalDoc
  pub returns : result ≡ some (ins (position, text) s, document)
  pub represents : Represents document (apply (ins (position, text) s) doc)
  pub in_editor : insert_text pos text (shown doc) ≡ shown (apply (ins (position, text) s) doc)

-- The call returns an instruction to insert within the text that the document shows, and a document
-- that stands for the old one with the operation applied; the text of an editor that follows the
-- instruction is what it shows.
pub record Followed (result : Option (EditInstruction × InternalDoc)) (doc : Document) (op : Op)
    (text : Text) : Type 0 where
  pub position : ℕ
  pub document : InternalDoc
  pub returns :
      result ≡ some (EditInstruction.ins (record { pos = position; content = text } ∷ []), document)
  pub in_text : position ≤ length (shown doc)
  pub represents : Represents document (apply op doc)
  pub in_editor : insert_text position text (shown doc) ≡ shown (apply op doc)

-- Let the internal document stand for a document, with coalesced ranges and cursors that are new or
-- stand at ranges, the text not be empty, the position lie in the editor's text or at its end, and
-- the length of the document with the text stay below `2 ^ 64`. Then `convert_editor_op_and_apply`
-- of an insertion neither panics nor exits. The document that it leaves stands for the old one with
-- the operation that it returns applied, and is well formed again, and the text in which the editor
-- inserted is what that document shows.
pub convert_editor_op_and_apply-Sent :
    (d : InternalDoc) (doc : Document) (pos : ℕ) (text : Text) (s : ℕ)
    → Represents d doc
    → 0 < length text
    → pos ≤ length (shown doc)
    → length doc + length text < 2 ^ 64
    → Sent (convert_editor_op_and_apply d (EditorOp.ins pos text) s) doc pos text s
unfolding apply
convert_editor_op_and_apply-Sent d doc pos text s r some_text hi bound =
    let a =
      convert_editor_op_and_apply-Applied d pos text s some_text r.coalesced r.valid
        (omega (arith, measure-Represents d doc r)) (omega (arith, total-Represents d doc r)) in
    let at : live_before a.internal_position (liveness doc) ≡ pos =
      ap (λ fs. live_before a.internal_position fs) (sym r.same) ∙ a.corresponds in
    record {
      position = a.internal_position;
      document = a.document;
      returns = a.returns;
      represents = record {
        same =
            a.inserts
            ∙ ap (insert_flags a.internal_position (length text)) r.same
            ∙ sym (liveness-insert_at a.internal_position text doc);
        coalesced = a.coalesced;
        valid = a.valid;
      };
      in_editor =
          ap (λ q. insert_text q text (shown doc)) (sym at)
          ∙ shown-insert_at a.internal_position text doc;
    }

-- Let the internal document stand for a document, with coalesced ranges and cursors that are new or
-- stand at ranges, the text not be empty, the position lie in the document or at its end, and its
-- length with the text stay below `2 ^ 64`. Then `convert_internal_op_and_apply` of an insertion
-- neither panics nor exits. The document that it leaves stands for the old one with the operation
-- applied, and is well formed again, and an editor that follows the instruction inserts within its
-- text and gets the text that this document shows.
pub convert_internal_op_and_apply-Followed :
    (d : InternalDoc) (doc : Document) (pos : ℕ) (text : Text) (s : ℕ)
    → Represents d doc
    → 0 < length text
    → pos ≤ length doc
    → length doc + length text < 2 ^ 64
    → Followed (convert_internal_op_and_apply d (ins (pos, text) s)) doc (ins (pos, text) s) text
unfolding apply
convert_internal_op_and_apply-Followed d doc pos text s r some_text hi bound =
    let a =
      convert_internal_op_and_apply-Shown d pos text s some_text r.coalesced r.valid
        (omega (arith, total-Represents d doc r)) (omega (arith, total-Represents d doc r)) in
    record {
      position = live_before pos (flags d.ranges);
      document = a.document;
      returns = a.returns;
      in_text = rw (ap (λ fs. live_before pos fs) r.same) (live_before-le-shown pos doc);
      represents = record {
        same =
            a.inserts
            ∙ ap (insert_flags pos (length text)) r.same
            ∙ sym (liveness-insert_at pos text doc);
        coalesced = a.coalesced;
        valid = a.valid;
      };
      in_editor =
          ap (λ fs. insert_text (live_before pos fs) text (shown doc)) r.same
          ∙ shown-insert_at pos text doc;
    }
