-- ===== src/Docs/Server/Open/Bytes.antt =====
-- The text of a hosted document and its engine over `Doc::apply_op`, and where a document is made of
-- a file (collab_mode/src/server.rs).
use collab_mode.Prelude.{
  ℕ, zero, suc, ◌+◌, ◌^◌, ◌≤◌, ◌<◌, ◌≡◌, refl, sym, ap, ◌∙◌, ◌==◌, ltb, true, false, some, [], ◌∷◌,
  ◌++◌, arith, Text, length, take, drop, length-append, length-take, length-drop, replicate,
}
use collab_mode.Op.{ins}
use collab_mode.Document.{Document, cells, shown, apply, growth}
use collab_mode.Op.Keep.{length-apply}
use collab_mode.InternalDoc.{InternalDoc, len, editor_len}
use collab_mode.InternalDoc.Edits.Synced.{
  Represents, insert_text, Followed, convert_internal_op_and_apply-Followed,
}
use collab_mode.InternalDoc.Edits.{convert_internal_op_and_apply}
use collab_mode.InternalDoc.Edits.Lengths.{editor_len-shown}
use collab_mode.Engine.{OpRecord}
use collab_mode.Engine.Server.{server_convert_and_apply, server_editor_len}
use collab_mode.Docs.Serve.{Doc, apply_op}
use collab_mode.Docs.Remote.{insert_many, apply_instruction}
use collab_mode.Docs.Server.{Server}

insert_text-take :
    (p : ℕ) (t s : Text) → p ≤ length s → insert_text p t s ≡ take p s ++ (t ++ drop p s)
unfolding insert_text
insert_text-take zero t s h = refl
insert_text-take (suc p) t [] h = absurd (omega arith)
insert_text-take (suc p) t (c ∷ s) h = ap (c ∷◌) (insert_text-take p t s (omega arith))

length-insert :
    (p : ℕ) (t s : Text) → p ≤ length s → length (take p s ++ (t ++ drop p s)) ≡ length s + length t
length-insert p t s h = omega (
  arith,
  length-append (take p s) (t ++ drop p s),
  length-append t (drop p s),
  length-take p s,
  length-drop p s,
)

-- The engine stands for the document, and the buffer is what it shows.
pub record InStep (doc : Doc) (d : Document) : Type 0 where
  pub represents : Represents doc.engine.internal_doc d
  pub text : doc.buffer ≡ shown d

ltb-false : (a b : ℕ) → ltb a b ≡ false → b ≤ a
ltb-false a b h = ground arith

le-ltb-false : (a b : ℕ) → b ≤ a → ltb a b ≡ false
le-ltb-false a b h = ground arith

eq-==_true : (a b : ℕ) → a ≡ b → (a == b) ≡ true
eq-==_true a b h = ground arith

-- The document with what an insertion leaves.
abbrev after : Doc → InternalDoc → Text → Doc
after doc internal buffer = record doc {
  engine = record (doc.engine) { internal_doc = internal };
  buffer = buffer;
}

abbrev inserted : ℕ → Text → Text → Text
inserted p t s = take p s ++ (t ++ drop p s)

module _ (op : OpRecord) (doc : Doc) (d : Document) (pos : ℕ) (text : Text) (s : ℕ)
    (is : op.op ≡ ins (pos, text) s) (r : Represents doc.engine.internal_doc d)
    (some_text : 0 < length text) (hi : pos ≤ length d)
    (bound : length d + length text < 2 ^ 64) where
  followed :
      Followed
        (convert_internal_op_and_apply doc.engine.internal_doc (ins (pos, text) s))
        d
        (ins (pos, text) s)
        text
  followed =
      convert_internal_op_and_apply-Followed doc.engine.internal_doc d pos text s r some_text hi
        bound

  apply_op-within :
      ltb (length doc.buffer) followed.position ≡ false
      → let buffer = inserted followed.position text doc.buffer in
        apply_op op doc
        ≡ some (editor_len followed.document == length buffer, after doc followed.document buffer)
  unfolding apply_op server_convert_and_apply apply_instruction insert_many server_editor_len
  apply_op-within within = rw is (rw (followed.returns, apply_op) (rw within refl))

  shown_after : shown (apply (ins (pos, text) s) d) ≡ inserted followed.position text (shown d)
  shown_after =
      sym followed.in_editor ∙ insert_text-take followed.position text (shown d) followed.in_text

  len_after : editor_len followed.document ≡ length (shown d) + length text
  len_after =
      (editor_len-shown followed.document (apply (ins (pos, text) s) d) followed.represents
        (unfold growth in omega (arith, length-apply (ins (pos, text) s) d))).0
      ∙ ap length shown_after
      ∙ length-insert followed.position text (shown d) followed.in_text

-- Let the engine of a hosted document stand for a document, and the buffer be what it shows. Then
-- `apply_op` of an insertion into the document succeeds, provided that the text is not empty and
-- that the length stays below `2 ^ 64`, and the engine and the buffer it leaves are in step again:
-- they stand for the document with the operation applied.
pub apply_op-InStep :
    (op : OpRecord) (doc : Doc) (d : Document) (pos : ℕ) (text : Text) (s : ℕ)
    → op.op ≡ ins (pos, text) s
    → InStep doc d
    → 0 < length text
    → pos ≤ length d
    → length d + length text < 2 ^ 64
    → (doc' : Doc) × (apply_op op doc ≡ some (true, doc'))
      × InStep doc' (apply (ins (pos, text) s) d)
apply_op-InStep op doc d pos text s is step some_text hi bound =
    let f = followed op doc d pos text s is step.represents some_text hi bound in
    let same_length : length doc.buffer ≡ length (shown d) = ap length step.text in
    let within : ltb (length doc.buffer) f.position ≡ false =
      le-ltb-false _ _ (omega (arith, f.in_text)) in
    let buffer = inserted f.position text doc.buffer in
    let new_length = length-insert f.position text doc.buffer (ltb-false _ _ within) in
    let len = len_after op doc d pos text s is step.represents some_text hi bound in
    (
      after doc f.document buffer,
      apply_op-within op doc d pos text s is step.represents some_text hi bound within
          ∙ ap (λ b. some (b, after doc f.document buffer))
              (eq-==_true _ _ (omega (arith, len, new_length))),
      record {
        represents = f.represents;
        text =
            ap (inserted f.position text) step.text
            ∙ sym (shown_after op doc d pos text s is step.represents some_text hi bound);
      },
    )

-- A document of `n` live characters.
blank : ℕ → Document
blank n = cells (replicate n 0)
