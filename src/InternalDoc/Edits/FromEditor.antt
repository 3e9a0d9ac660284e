-- ===== src/InternalDoc/Edits/FromEditor.antt =====
-- An insertion of the editor, from its position in the internal document to the checks of the
-- cursors: `convert_editor_op_and_apply`.
use collab_mode.Prelude.{
  ℕ, zero, suc, ◌+◌, ◌^◌, ◌≤◌, ◌<◌, ◌≡◌, inl, inr, refl, sym, ap, ◌∙◌, Bool, true, Option, none,
  some, List, [], ◌∷◌, arith, Text, length, length-append, length-replicate, replicate, ◌>>=◌,
}
use collab_mode.Op.{Op, ins}
use collab_mode.Types.{EditorOp}
use collab_mode.InternalDoc.{
  Range, live, Cursor, InternalDoc, len, origin, put, lookup, get_cursor, is_live,
}
use collab_mode.InternalDoc.Flags.{total, flags, length-flags, insert_flags, Coalesced}
use collab_mode.InternalDoc.Convert.{convert_pos}
use collab_mode.InternalDoc.Convert.Measure.{measure, live_before}
use collab_mode.InternalDoc.Convert.Places.{Points}
use collab_mode.InternalDoc.Convert.Result.{Usable, convert_pos-Converted}
use collab_mode.InternalDoc.Insert.{apply_ins}
use collab_mode.InternalDoc.Insert.Cursors.{Valid, append-Valid}
use collab_mode.InternalDoc.Insert.Result.{Inserted, apply_ins-Inserted}
use collab_mode.InternalDoc.Edits.{finish, convert_editor_op_and_apply}
use collab_mode.InternalDoc.Cursors.{lookup-Usable, put-Valid, finish-Valid}

length-insert_flags : (p n : ℕ) (fs : List Bool) → length (insert_flags p n fs) ≡ length fs + n
unfolding insert_flags
length-insert_flags zero n fs =
    omega (arith, length-append (replicate n true) fs, length-replicate n true)
length-insert_flags (suc p) n [] = omega (arith, length-replicate n true)
length-insert_flags (suc p) n (f ∷ fs) = omega (arith, length-insert_flags p n fs)

pub Inserted-bound :
    {result : Option (InternalDoc × Cursor)} {rs : List Range} {pos n : ℕ}
    (i : Inserted result rs pos n)
    → total i.document.ranges ≡ total rs + n
Inserted-bound {rs = rs} {pos} {n} i =
    sym (length-flags i.document.ranges)
    ∙ ap length i.inserts
    ∙ length-insert_flags pos n (flags rs)
    ∙ ap (◌+ n) (length-flags rs)

-- The call returns an insertion at the internal position that the editor's stands for, and a
-- document into which it was made.
pub record Applied (result : Option (Op × InternalDoc)) (rs : List Range) (pos : ℕ) (text : Text)
    (s : ℕ) : Type 0 where
  pub internal_position : ℕ
  pub document : InternalDoc
  pub returns : result ≡ some (ins (internal_position, text) s, document)
  pub corresponds : live_before internal_position (flags rs) ≡ pos
  pub inserts : flags document.ranges ≡ insert_flags internal_position (length text) (flags rs)
  pub coalesced : Coalesced none document.ranges
  pub valid : Valid document.ranges document.cursors

pub apply_ins-Points :
    (rs : List Range) (cs : List (ℕ × Cursor)) (c : Cursor) (pos n : ℕ)
    → 0 < n
    → Coalesced none rs
    → Valid rs cs
    → (p : Points rs c) → c.internal_pos ≤ pos
    → pos ≤ c.internal_pos + len p.range
    → total rs + n < 2 ^ 64
    → Inserted (apply_ins (record { ranges = rs; cursors = cs }) pos n c) rs pos n
apply_ins-Points rs cs c pos n some_text co v p lo hi bound = rw p.at.around (
    apply_ins-Inserted cs p.before p.after p.range pos n c some_text (rw p.at.around at co)
      (rw p.at.around at v) (rw p.at.around at p.at) p.index lo hi (rw p.at.around at bound))

abbrev insert_with :
    List Range → List (ℕ × Cursor) → Cursor → ℕ → Text → ℕ → Option (Op × InternalDoc)
insert_with rs cs c pos text s = convert_pos rs pos c true >>= λ at.
    apply_ins (record { ranges = rs; cursors = cs }) at.0 (length text) at.1 >>= λ done.
    finish s done.1 done.0 >>= λ d. some (ins (at.0, text) s, d)

convert_pos-empty : (pos : ℕ) (c : Cursor) → pos ≡ 0 → convert_pos [] pos c true ≡ some (0, c)
unfolding convert_pos
convert_pos-empty pos c e = rw e

empty-Applied :
    (cs : List (ℕ × Cursor)) (c : Cursor) (pos : ℕ) (text : Text) (s : ℕ)
    → 0 < length text
    → Valid [] cs
    → c ≡ origin
    → pos ≡ 0
    → length text < 2 ^ 64
    → Applied (insert_with [] cs c pos text s) [] pos text s
unfolding apply_ins flags insert_flags live_before total len is_live
empty-Applied cs c pos text s some_text v u e bound =
    let ranges : List Range = live (length text) ∷ [] in
    let co : Coalesced none ranges = (some_text, (λ e. cc), tt) in
    let v' : Valid ranges cs = append-Valid [] ranges cs v in
    let done =
      finish-Valid s c (record { ranges = ranges; cursors = cs }) co (omega arith) v' (inl u) in
    record {
      internal_position = 0;
      document = record { ranges = ranges; cursors = put s c cs };
      returns = rw (convert_pos-empty pos c e) (rw done refl);
      corresponds = sym e;
      inserts = refl;
      coalesced = co;
      valid = put-Valid s ranges c cs v' (inl u);
    }

insert_with-Applied :
    (rs : List Range) (cs : List (ℕ × Cursor)) (c : Cursor) (pos : ℕ) (text : Text) (s : ℕ)
    → 0 < length text
    → Coalesced none rs
    → Valid rs cs
    → Usable rs c
    → pos ≤ measure true rs
    → total rs + length text < 2 ^ 64
    → Applied (insert_with rs cs c pos text s) rs pos text s
unfolding measure total
insert_with-Applied [] cs c pos text s some_text co v (inl u) hi bound =
    empty-Applied cs c pos text s some_text v u (omega arith) (omega arith)
insert_with-Applied [] cs c pos text s some_text co v (inr p) hi bound =
    absurd (omega (arith, ap length p.at.around, length-append p.before (p.range ∷ p.after)))
insert_with-Applied (r ∷ rest) cs c pos text s some_text co v u hi bound =
    let at = convert_pos-Converted r rest pos c true (omega arith) u hi in
    let i =
      apply_ins-Points (r ∷ rest) cs at.cursor at.internal_position (length text) some_text co v
        at.points at.low at.high bound in
    let done =
      finish-Valid s i.cursor i.document i.coalesced (omega (arith, Inserted-bound i)) i.valid
        (inr i.points) in
    record {
      internal_position = at.internal_position;
      document = record i.document { cursors = put s i.cursor i.document.cursors };
      returns = rw at.returns (rw i.returns (rw done refl));
      corresponds = at.corresponds ∙ sym at.given;
      inserts = i.inserts;
      coalesced = i.coalesced;
      valid = put-Valid s i.document.ranges i.cursor i.document.cursors i.valid (inr i.points);
    }

pub get_cursor-none :
    (d : InternalDoc) (s : ℕ)
    → lookup s d.cursors ≡ none
    → get_cursor d s ≡ (origin, record d { cursors = put s origin d.cursors })
unfolding get_cursor
get_cursor-none d s e = rw (e, get_cursor) refl

pub get_cursor-some :
    (d : InternalDoc) (s : ℕ) (c : Cursor) → lookup s d.cursors ≡ some c → get_cursor d s ≡ (c, d)
unfolding get_cursor
get_cursor-some d s c e = rw (e, get_cursor) refl

-- The cursor of a site that has none is made.
with_cursor-Applied :
    (d : InternalDoc) (pos : ℕ) (text : Text) (s : ℕ) (found : Option Cursor)
    → lookup s d.cursors ≡ found
    → 0 < length text
    → Coalesced none d.ranges
    → Valid d.ranges d.cursors
    → pos ≤ measure true d.ranges
    → total d.ranges + length text < 2 ^ 64
    → Applied (convert_editor_op_and_apply d (EditorOp.ins pos text) s) d.ranges pos text s
unfolding convert_editor_op_and_apply
with_cursor-Applied d pos text s none e some_text co v hi bound = rw (get_cursor-none d s e) (
    insert_with-Applied d.ranges (put s origin d.cursors) origin pos text s some_text co
      (put-Valid s d.ranges origin d.cursors v (inl refl)) (inl refl) hi bound)
with_cursor-Applied d pos text s (some c) e some_text co v hi bound = rw (get_cursor-some d s c e) (
    insert_with-Applied d.ranges d.cursors c pos text s some_text co v
      (lookup-Usable s d.ranges d.cursors c v e) hi bound)

-- Let the ranges of a document be coalesced, its cursors be new or stand at ranges, the text not be
-- empty, the position be at most the editor's length, and the length with the text stay below
-- `2 ^ 64`. Then `convert_editor_op_and_apply` of an insertion neither panics nor exits in
-- `check_cursor_positions`. The position of the operation it returns is one with as many live
-- characters before it as the editor's position says, the text's live characters are inserted there,
-- and the document is again one with coalesced ranges and cursors that stand at ranges.
pub convert_editor_op_and_apply-Applied :
    (d : InternalDoc) (pos : ℕ) (text : Text) (s : ℕ)
    → 0 < length text
    → Coalesced none d.ranges
    → Valid d.ranges d.cursors
    → pos ≤ measure true d.ranges
    → total d.ranges + length text < 2 ^ 64
    → Applied (convert_editor_op_and_apply d (EditorOp.ins pos text) s) d.ranges pos text s
convert_editor_op_and_apply-Applied d pos text s =
    with_cursor-Applied d pos text s (lookup s d.cursors) refl
