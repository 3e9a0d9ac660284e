-- ===== src/Engine/Server/Timeline.antt =====
-- The server's timeline: how it is numbered, and what document it stands for.
use collab_mode.Prelude.{
  ℕ, zero, suc, ◌+◌, ◌^◌, ◌≤◌, ◌<◌, ◌≡◌, refl, sym, ap, ◌∙◌, some, List, [], ◌∷◌, ◌++◌, arith,
  length, length-append, drop-append, take-append-drop, take, drop, ltb, inl, inr, Bool-cases,
}
use collab_mode.FatOp.{op_operation, symmetric_transform, quatradic_transform}
use collab_mode.FatOp.Converge.{
  apply_ops, apply_ops-append, growth_ops, FitsAll, CompatibleAll, apply_ops-quatradic_transform,
}
use collab_mode.Document.{Document}
use collab_mode.Engine.{OpRecord, add_u32, as_u32}
use collab_mode.Engine.History.{GlobalHistory, ops_after}
use collab_mode.Engine.Server.{ServerEngine, assign_seqs, process_ops, global_ops_after}

-- The operations carry the sequence numbers from `n` on.
abbrev pub Numbered : ℕ → List OpRecord → Type 0
Numbered n [] = Unit
Numbered n (o ∷ os) = (o.seq ≡ some n) × Numbered (suc n) os

-- Sequence numbers start from 1, and `current_seq` is the last one.
pub record IsValid (s : ServerEngine) : Type 0 where
  pub counted : s.current_seq ≡ length s.gh.global
  pub numbered : Numbered 1 s.gh.global

Numbered-append :
    (n m : ℕ) (os ps : List OpRecord)
    → Numbered n os
    → m ≡ n + length os
    → Numbered m ps
    → Numbered n (os ++ ps)
Numbered-append n m [] ps h e k = let e' : m ≡ n = omega arith in rw e' at k
Numbered-append n m (o ∷ os) ps h e k = (h.0, Numbered-append (suc n) m os ps h.1 (omega arith) k)

drop-past {ℓ} : {A : Type ℓ} (n : ℕ) (xs : List A) → length xs ≤ n → drop n xs ≡ []
drop-past zero [] h = refl
drop-past (suc n) [] h = refl
drop-past zero (x ∷ xs) h = absurd (omega arith)
drop-past (suc n) (x ∷ xs) h = drop-past n xs (omega arith)

pub ops_after-drop :
    (gh : GlobalHistory) (seq : ℕ)
    → length gh.global < 2 ^ 32
    → ops_after gh seq ≡ drop seq gh.global
unfolding ops_after
ops_after-drop gh seq h = elim (Bool-cases (ltb seq (as_u32 (length gh.global)))) [
  | inl inside ↦ rw inside
  | inr past ↦ rw past (sym (drop-past seq gh.global (ground arith)))
]

assign_seqs-Numbered :
    (n : ℕ) (os : List OpRecord) → n + length os < 2 ^ 32 → Numbered (suc n) (assign_seqs n os).0
unfolding assign_seqs
assign_seqs-Numbered n [] h = tt
assign_seqs-Numbered n (o ∷ os) h =
    let e : add_u32 n 1 ≡ suc n = omega arith in
    (ap some e, rw e (assign_seqs-Numbered (suc n) os (omega arith)))

assign_seqs-last :
    (n : ℕ) (os : List OpRecord) → n + length os < 2 ^ 32 → (assign_seqs n os).1 ≡ n + length os
unfolding assign_seqs
assign_seqs-last n [] h = omega arith
assign_seqs-last n (o ∷ os) h =
    let e : add_u32 n 1 ≡ suc n = omega arith in
    rw e (assign_seqs-last (suc n) os (omega arith) ∙ omega arith)

length-assign_seqs : (n : ℕ) (os : List OpRecord) → length (assign_seqs n os).0 ≡ length os
unfolding assign_seqs
length-assign_seqs n [] = refl
length-assign_seqs n (o ∷ os) = ap suc (length-assign_seqs (add_u32 n 1) os)

apply_ops-assign_seqs :
    (n : ℕ) (os : List OpRecord) (d : Document) → apply_ops (assign_seqs n os).0 d ≡ apply_ops os d
unfolding assign_seqs
apply_ops-assign_seqs n [] d = refl
apply_ops-assign_seqs n (o ∷ os) d = apply_ops-assign_seqs (add_u32 n 1) os _

length-quatradic_transform :
    (os ps : List OpRecord) → length (quatradic_transform os ps).1 ≡ length ps
unfolding quatradic_transform
length-quatradic_transform os [] = refl
length-quatradic_transform os (p ∷ ps) =
    ap suc (length-quatradic_transform (symmetric_transform p os).1 ps)

-- The operations that the server returns, and its state afterwards.
abbrev pub answer : ServerEngine → List OpRecord → ℕ → List OpRecord
answer s ops context = (process_ops s ops context).0

abbrev pub after : ServerEngine → List OpRecord → ℕ → ServerEngine
after s ops context = (process_ops s ops context).1

module _ (s : ServerEngine) (ops : List OpRecord) (context : ℕ) where
  length-answer : length (answer s ops context) ≡ length ops
  unfolding process_ops
  length-answer =
      length-assign_seqs s.current_seq _ ∙ length-quatradic_transform (ops_after s.gh context) ops

  global-after : (after s ops context).gh.global ≡ s.gh.global ++ answer s ops context
  unfolding process_ops
  global-after = refl

  answer-later :
      s.current_seq ≡ length s.gh.global
      → length s.gh.global + length ops < 2 ^ 32
      → global_ops_after (after s ops context) s.current_seq ≡ answer s ops context
  unfolding global_ops_after
  answer-later counted bound =
      ops_after-drop (after s ops context).gh s.current_seq (
        rw global-after
          (omega (arith, length-append s.gh.global (answer s ops context), length-answer)))
      ∙ rw global-after (
          ap (λ n. drop n (s.gh.global ++ answer s ops context)) counted
          ∙ drop-append s.gh.global (answer s ops context))

  answer-Numbered :
      s.current_seq + length ops < 2 ^ 32
      → Numbered (suc s.current_seq) (answer s ops context)
        × ((after s ops context).current_seq ≡ s.current_seq + length ops)
  unfolding process_ops
  answer-Numbered bound =
      let n = length-quatradic_transform (ops_after s.gh context) ops in
      (
        assign_seqs-Numbered s.current_seq _ (omega (arith, n)),
        assign_seqs-last s.current_seq _ (omega (arith, n)) ∙ ap (s.current_seq +◌) n,
      )

  -- While sequence numbers stay below `2 ^ 32`, the server numbers its timeline from 1 on without
  -- gaps, with `current_seq` the last number, returns one operation for each that it is given, and
  -- another site that asks for the operations after the old `current_seq` gets what was returned.
  pub process_ops-IsValid :
      IsValid s
      → length s.gh.global + length ops < 2 ^ 32
      → IsValid (after s ops context)
        × (length (answer s ops context) ≡ length ops)
        × (global_ops_after (after s ops context) s.current_seq ≡ answer s ops context)
  process_ops-IsValid v bound =
      let fresh = answer-Numbered (omega (arith, v.counted)) in
      (
        record {
          counted =
              fresh.1
              ∙ rw global-after (
                  omega (
                    arith,
                    v.counted,
                    length-answer,
                    length-append s.gh.global (answer s ops context),
                  ));
          numbered = rw global-after (
              Numbered-append 1 (suc s.current_seq) s.gh.global (answer s ops context) v.numbered
                (omega (arith, v.counted)) fresh.0);
        },
        length-answer,
        answer-later v.counted bound,
      )

-- The operations that a site has not received yet, and the document of those that it has.
abbrev pub unseen : ServerEngine → ℕ → List OpRecord
unseen s context = ops_after s.gh context

abbrev pub seen : ServerEngine → ℕ → Document → Document
seen s context d0 = apply_ops (take context s.gh.global) d0

timeline-split :
    (s : ServerEngine) (context : ℕ) (d0 : Document)
    → length s.gh.global < 2 ^ 32
    → apply_ops s.gh.global d0 ≡ apply_ops (unseen s context) (seen s context d0)
timeline-split s context d0 small =
    ap (λ os. apply_ops os d0) (sym (take-append-drop context s.gh.global))
    ∙ apply_ops-append (take context s.gh.global) _ d0
    ∙ rw (ops_after-drop s.gh context small) refl

-- Let the site that sent `ops` have received the first `context` operations of the server's
-- timeline, every operation of the timeline that it had not received be compatible with every one
-- of `ops` (no two insertions of one site, no two marks of opposite liveness), and both lists fit
-- the document that the site had received. Then the document that the timeline stands for after
-- `process_ops`, from the document `d0` of the first operation, is the document of that site once
-- it has also received the others, transformed, provided that the timeline has fewer than `2 ^ 32`
-- operations, and that the length of that document and the insertions of both lists add up to
-- less than `2 ^ 64`.
pub apply_ops-process_ops :
    (s : ServerEngine) (ops : List OpRecord) (context : ℕ) (d0 : Document)
    → length s.gh.global < 2 ^ 32
    → CompatibleAll (unseen s context) ops
    → FitsAll (unseen s context) (length (seen s context d0))
    → FitsAll ops (length (seen s context d0))
    → length (seen s context d0) + growth_ops (unseen s context) + growth_ops ops < 2 ^ 64
    → apply_ops (after s ops context).gh.global d0
      ≡ apply_ops (quatradic_transform (unseen s context) ops).0 (apply_ops ops (seen s context d0))
unfolding process_ops
apply_ops-process_ops s ops context d0 small c f g bound =
    apply_ops-append s.gh.global (answer s ops context) d0
    ∙ apply_ops-assign_seqs s.current_seq (quatradic_transform (unseen s context) ops).1
        (apply_ops s.gh.global d0)
    ∙ ap (apply_ops (quatradic_transform (unseen s context) ops).1)
        (timeline-split s context d0 small)
    ∙ apply_ops-quatradic_transform (unseen s context) ops (seen s context d0) c f g bound
