-- ===== src/Docs/External.antt =====
-- A change of a file on disk, as operations on the document.
use mathlib.Core.List.{◌++◌, reverse_aux}
use collab_mode.Prelude.{
  ℕ, zero, suc, drop, ◌-◌, ◌+◌, ◌^◌, ◌<◌, ◌≡◌, refl, sym, ap, ◌∙◌, true, false, List, [], ◌∷◌, map,
  reverse, append_assoc, append-nil, arith, Text, length, length-append, add_u64,
}
use collab_mode.Engine.{add_u32}
use collab_mode.Op.{Op}
use collab_mode.FatOp.Converge.{apply_ops}
use collab_mode.Document.{Document, cells, insert_at, mark_at, mark_all, apply, shown}
use collab_mode.Document.Laws.{length-cells, insert_at-append, mark_at-append}
use collab_mode.Docs.{Chunk, equal, insert, delete, raw_ops, number_ops, chunks_to_ops}

-- The two texts that a list of chunks is the difference of.
unfoldable pub old_text : List Chunk → Text
old_text [] = []
old_text (equal s ∷ chunks) = s ++ old_text chunks
old_text (insert s ∷ chunks) = old_text chunks
old_text (delete s ∷ chunks) = s ++ old_text chunks

unfoldable pub new_text : List Chunk → Text
new_text [] = []
new_text (equal s ∷ chunks) = s ++ new_text chunks
new_text (insert s ∷ chunks) = s ++ new_text chunks
new_text (delete s ∷ chunks) = new_text chunks

abbrev tombstones : Text → Document
tombstones t = map (λ c. record { char = c; live = false }) t

-- The document after the operations.
changed : List Chunk → Document
changed [] = []
changed (equal s ∷ chunks) = cells s ++ changed chunks
changed (insert s ∷ chunks) = cells s ++ changed chunks
changed (delete s ∷ chunks) = tombstones s ++ changed chunks

-- The operations, the first one applied last.
apply_back : List Op → Document → Document
apply_back [] d = d
apply_back (op ∷ ops) d = apply op (apply_back ops d)

abbrev apply_all : List Op → Document → Document
apply_all [] d = d
apply_all (op ∷ ops) d = apply_all ops (apply op d)

mark_at-cells :
    (s : Text) (d : Document) → mark_at 0 (length s) false (cells s ++ d) ≡ tombstones s ++ d
unfolding mark_at
mark_at-cells [] [] = refl
mark_at-cells [] (c ∷ d) = refl
mark_at-cells (c ∷ s) d = ap (record { char = c; live = false } ∷◌) (mark_at-cells s d)

regroup : (p : Document) (s t : Text) → p ++ cells (s ++ t) ≡ (p ++ cells s) ++ cells t
regroup p s t = ap (p ++◌) (cells-append s t) ∙ sym (append_assoc p (cells s) (cells t))
  where
    cells-append : (s t : Text) → cells (s ++ t) ≡ cells s ++ cells t
    cells-append [] t = refl
    cells-append (c ∷ s) t = ap (record { char = c; live = true } ∷◌) (cells-append s t)

-- The step over a text of the old document.
behind :
    (s : Text) (chunks : List Chunk) (p : Document) (pos site : ℕ)
    → ((p' : Document) (pos' : ℕ)
        → pos' ≡ length p'
        → length p' + length (old_text chunks) < 2 ^ 64
        → apply_back (raw_ops chunks pos' site) (p' ++ cells (old_text chunks))
          ≡ p' ++ changed chunks)
    → pos ≡ length p
    → length p + length (s ++ old_text chunks) < 2 ^ 64
    → apply_back (raw_ops chunks (add_u64 pos (length s)) site) (p ++ cells (s ++ old_text chunks))
      ≡ p ++ (cells s ++ changed chunks)
behind s chunks p pos site others e small =
    let size = length-append p (cells s) in
    let size' = length-append s (old_text chunks) in
    let sum : add_u64 pos (length s) ≡ length (p ++ cells s) =
      omega (arith, size, size', length-cells s) in
    ap (apply_back (raw_ops chunks (add_u64 pos (length s)) site)) (regroup p s (old_text chunks))
    ∙ others (p ++ cells s) (add_u64 pos (length s)) sum
        (omega (arith, size, size', length-cells s))
    ∙ append_assoc p (cells s) (changed chunks)

apply_back-raw_ops :
    (chunks : List Chunk) (p : Document) (pos site : ℕ)
    → pos ≡ length p
    → length p + length (old_text chunks) < 2 ^ 64
    → apply_back (raw_ops chunks pos site) (p ++ cells (old_text chunks)) ≡ p ++ changed chunks
unfolding raw_ops old_text changed apply_back apply mark_all
apply_back-raw_ops [] p pos site e small = refl
apply_back-raw_ops (equal s ∷ chunks) p pos site e small =
    behind s chunks p pos site (λ p' pos'. apply_back-raw_ops chunks p' pos' site) e small
apply_back-raw_ops (insert s ∷ chunks) p pos site e small =
    ap (insert_at pos s) (apply_back-raw_ops chunks p pos site e small)
    ∙ insert_at-append p pos 0 s (changed chunks) (omega arith)
    ∙ (unfold insert_at in refl)
apply_back-raw_ops (delete s ∷ chunks) p pos site e small =
    ap (mark_at pos (length s) false)
      (behind s chunks p pos site (λ p' pos'. apply_back-raw_ops chunks p' pos' site) e small)
    ∙ mark_at-append p pos 0 (length s) false (cells s ++ changed chunks) (omega arith)
    ∙ ap (p ++◌) (mark_at-cells s (changed chunks))

apply_ops-number_ops :
    (ops : List Op) (next_seq : ℕ) (d : Document)
    → apply_ops (number_ops ops next_seq).0 d ≡ apply_all ops d
unfolding number_ops
apply_ops-number_ops [] next_seq d = refl
apply_ops-number_ops (op ∷ ops) next_seq d =
    apply_ops-number_ops ops (add_u32 next_seq 1) (apply op d)

apply_all-reverse_aux :
    (ops acc : List Op) (d : Document)
    → apply_all (reverse_aux ops acc) d ≡ apply_all acc (apply_back ops d)
unfolding apply_back
apply_all-reverse_aux [] acc d = refl
apply_all-reverse_aux (op ∷ ops) acc d = apply_all-reverse_aux ops (op ∷ acc) d

apply_all-reverse : (ops : List Op) (d : Document) → apply_all (reverse ops) d ≡ apply_back ops d
apply_all-reverse ops d = apply_all-reverse_aux ops [] d

shown-cells : (s : Text) (d : Document) → shown (cells s ++ d) ≡ s ++ shown d
unfolding shown
shown-cells [] d = refl
shown-cells (c ∷ s) d = ap (c ∷◌) (shown-cells s d)

pub shown-cells_only : (s : Text) → shown (cells s) ≡ s
unfolding shown
shown-cells_only [] = refl
shown-cells_only (c ∷ s) = ap (c ∷◌) (shown-cells_only s)

shown-tombstones : (s : Text) (d : Document) → shown (tombstones s ++ d) ≡ shown d
unfolding shown
shown-tombstones [] d = refl
shown-tombstones (c ∷ s) d = shown-tombstones s d

shown-changed : (chunks : List Chunk) → shown (changed chunks) ≡ new_text chunks
unfolding changed new_text
shown-changed [] = unfold shown in refl
shown-changed (equal s ∷ chunks) =
    shown-cells s (changed chunks) ∙ ap (s ++◌) (shown-changed chunks)
shown-changed (insert s ∷ chunks) =
    shown-cells s (changed chunks) ∙ ap (s ++◌) (shown-changed chunks)
shown-changed (delete s ∷ chunks) = shown-tombstones s (changed chunks) ∙ shown-changed chunks

-- The operations made of the difference of two texts turn a document that has no tombstones and
-- shows the old text into one that shows the new text, where the old text has fewer than 2 ^ 64
-- characters.
pub chunks_to_ops-shown :
    (chunks : List Chunk) (site next_seq : ℕ)
    → length (old_text chunks) < 2 ^ 64
    → shown (apply_ops (chunks_to_ops chunks site next_seq).0 (cells (old_text chunks)))
      ≡ new_text chunks
unfolding chunks_to_ops
chunks_to_ops-shown chunks site next_seq small =
    let raw = raw_ops chunks 0 site in
    ap shown (
      apply_ops-number_ops (reverse raw) next_seq (cells (old_text chunks))
      ∙ apply_all-reverse raw (cells (old_text chunks))
      ∙ apply_back-raw_ops chunks [] 0 site refl (omega arith))
    ∙ shown-changed chunks

shown-mark_at : (n : ℕ) (t : Text) → shown (mark_at 0 n false (cells t)) ≡ drop n t
unfolding shown mark_at
shown-mark_at zero [] = refl
shown-mark_at zero (c ∷ t) = ap (c ∷◌) (shown-cells_only t)
shown-mark_at (suc n) [] = refl
shown-mark_at (suc n) (c ∷ t) = shown-mark_at n t

-- A mark uses itself up on the tombstones at its place.
shown-mark_at_dead :
    (dead : Text) (n k : ℕ) (t : Text)
    → k ≡ n - length dead
    → shown (mark_at 0 n false (tombstones dead ++ cells t)) ≡ drop k t
unfolding shown mark_at
shown-mark_at_dead [] n k t e = let is : k ≡ n = omega arith in rw is (shown-mark_at n t)
shown-mark_at_dead (c ∷ dead) zero k t e =
    let is : k ≡ 0 = omega arith in rw is (shown-tombstones dead (cells t) ∙ shown-cells_only t)
shown-mark_at_dead (c ∷ dead) (suc n) k t e = shown-mark_at_dead dead n k t (omega arith)

one_op :
    (same lost rest : Text) (site next_seq : ℕ) (d : Document)
    → length same < 2 ^ 64
    → apply_ops (chunks_to_ops (equal same ∷ delete lost ∷ equal rest ∷ []) site next_seq).0 d
      ≡ mark_at (length same) (length lost) false d
unfolding chunks_to_ops raw_ops number_ops apply mark_all
one_op same lost rest site next_seq d small =
    let at : add_u64 0 (length same) ≡ length same = omega arith in
    ap (λ p. mark_at p (length lost) false d) at

-- `reset_doc_from_disk` takes the difference to the text that the document shows, but the positions
-- of operations count its tombstones too. Let the document show `same`, `lost` and `rest`, with
-- tombstones before `lost`, and the file on disk have lost `lost`. Then the document loses from the
-- beginning of `lost` only as many characters as `lost` has more than there are tombstones, and
-- shows the others still, where `same` has fewer than `2 ^ 64` characters.
pub chunks_to_ops-tombstone :
    (same dead lost rest : Text) (site next_seq : ℕ)
    → length same < 2 ^ 64
    → let chunks : List Chunk = equal same ∷ delete lost ∷ equal rest ∷ [] in
      let before : Document = cells same ++ (tombstones dead ++ cells (lost ++ rest)) in
      (shown before ≡ old_text chunks)
      × (new_text chunks ≡ same ++ rest)
      × (shown (apply_ops (chunks_to_ops chunks site next_seq).0 before)
          ≡ same ++ drop (length lost - length dead) (lost ++ rest))
unfolding old_text new_text
chunks_to_ops-tombstone same dead lost rest site next_seq small =
    let tail = tombstones dead ++ cells (lost ++ rest) in
    (
      shown-cells same tail
          ∙ ap (same ++◌)
              (shown-tombstones dead (cells (lost ++ rest)) ∙ shown-cells_only (lost ++ rest))
          ∙ ap (λ (t : Text). same ++ (lost ++ t)) (sym (append-nil rest)),
      ap (same ++◌) (append-nil rest),
      ap shown (
            one_op same lost rest site next_seq (cells same ++ tail) small
            ∙ mark_at-append (cells same) (length same) 0 (length lost) false tail
                (omega (arith, length-cells same)))
          ∙ shown-cells same (mark_at 0 (length lost) false tail)
          ∙ ap (same ++◌) (
              shown-mark_at_dead dead (length lost) (length lost - length dead) (lost ++ rest)
                refl),
    )
