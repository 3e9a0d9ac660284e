-- ===== src/Engine/Client/Remote/Queue.antt =====
-- What the entries of a client's undo queue point to while operations of other sites arrive.
use mathlib.Core.Option
use collab_mode.Prelude.{
  ℕ, suc, ◌+◌, ◌-◌, ◌%◌, ◌^◌, ◌≤◌, ◌<◌, ◌≡◌, refl, sym, ap, ◌∙◌, ltb, true, false, inl, inr,
  Bool-cases, Option, some, List, [], ◌∷◌, ◌++◌, map, arith, length, length-append, get_elem?,
  get_elem?-map, get_elem?-append_left, get_elem?-append_cons, if◌then◌else◌,
}
use collab_mode.FatOp.{op_operation, fat_transform, symmetric_transform}
use collab_mode.Engine.{OpRecord, add_u32}
use collab_mode.Engine.History.{GlobalHistory, nth_in_undo_queue}
use collab_mode.Engine.Client.{ClientEngine}
use collab_mode.Engine.Client.Remote.{update_undo_deltas, shift_undo_queue, take_remote}

-- What identifies an operation of a site, however it is transformed.
abbrev pub label : OpRecord → ℕ × ℕ
label o = (o.site_seq, o.group_seq)

labels-update_undo_deltas :
    (n : ℕ) (os : List OpRecord) → map label (update_undo_deltas n os) ≡ map label os
unfolding update_undo_deltas
labels-update_undo_deltas n [] = refl
labels-update_undo_deltas n (o ∷ os) = ap (label o ∷◌) (labels-update_undo_deltas (n + 1) os)

labels-symmetric_transform :
    (r : OpRecord) (os : List OpRecord) → map label (symmetric_transform r os).1 ≡ map label os
unfolding symmetric_transform
labels-symmetric_transform r [] = refl
labels-symmetric_transform r (o ∷ os) =
    ap (label o ∷◌) (labels-symmetric_transform (fat_transform r o) os)

-- The entry of the queue with the number `q` points to this operation.
abbrev pointed : GlobalHistory → ℕ → Option OpRecord
pointed gh q =
    if ltb (q - 1) (length gh.global)
    then get_elem? gh.global (q - 1)
    else get_elem? gh.local (q - 1 - length gh.global)

nth-pointed :
    (gh : GlobalHistory) (i q : ℕ)
    → get_elem? gh.undo_queue i ≡ some q
    → 0 < q
    → q < 2 ^ 32
    → nth_in_undo_queue gh i ≡ pointed gh q
unfolding nth_in_undo_queue
nth-pointed gh i q h pos small =
    let e : (q + 2 ^ 64 - 1) % 2 ^ 64 ≡ q - 1 = omega arith in rw h (rw e)

module _ (e : ClientEngine) (op : OpRecord) (seq : ℕ) where
  abbrev next : GlobalHistory
  next = (take_remote e op seq).1.gh

  labels-next : map label next.local ≡ map label e.gh.local
  unfolding take_remote
  labels-next =
      labels-update_undo_deltas 0 (symmetric_transform op e.gh.local).1
      ∙ labels-symmetric_transform op e.gh.local

  global-next : next.global ≡ e.gh.global ++ (take_remote e op seq).0 ∷ []
  unfolding take_remote
  global-next = refl

  queue-next :
      (i q : ℕ)
      → get_elem? e.gh.undo_queue i ≡ some q
      → seq ≡ suc e.current_seq
      → seq < 2 ^ 32
      → get_elem? next.undo_queue i ≡ some (if ltb e.current_seq q then add_u32 q 1 else q)
  unfolding take_remote shift_undo_queue
  queue-next i q h e1 small =
      let e2 : (seq + 2 ^ 32 - 1) % 2 ^ 32 ≡ e.current_seq = omega arith in
      get_elem?-map _ e.gh.undo_queue i ∙ rw h (rw e2)

  label-local :
      (k : ℕ)
      → Option.map label (get_elem? next.local k) ≡ Option.map label (get_elem? e.gh.local k)
  label-local k =
      sym (get_elem?-map label next.local k)
      ∙ ap (λ ls. get_elem? ls k) labels-next
      ∙ get_elem?-map label e.gh.local k

  -- An entry for an operation of the global part.
  pointed-global :
      (q : ℕ)
      → 0 < q
      → q ≤ length e.gh.global
      → Option.map label (pointed next q) ≡ Option.map label (pointed e.gh q)
  pointed-global q pos inside =
      let e1 : ltb (q - 1) (length next.global) ≡ true =
        rw global-next
          (ground (arith, length-append e.gh.global ((take_remote e op seq).0 ∷ []))) in
      let e2 : ltb (q - 1) (length e.gh.global) ≡ true = ground arith in
      rw (e1, e2) (rw (global-next, get_elem?-append_left e.gh.global _ (q - 1) (omega arith)) refl)

  -- An entry for an operation of the local part, which the remote operation moves by one.
  pointed-local :
      (q : ℕ)
      → length e.gh.global < q
      → Option.map label (pointed next (q + 1)) ≡ Option.map label (pointed e.gh q)
  pointed-local q outside =
      let n : length next.global ≡ length e.gh.global + 1 =
        rw global-next (length-append e.gh.global ((take_remote e op seq).0 ∷ [])) in
      let e1 : ltb (q + 1 - 1) (length next.global) ≡ false = ground (arith, n) in
      let e2 : ltb (q - 1) (length e.gh.global) ≡ false = ground arith in
      let e3 : q + 1 - 1 - length next.global ≡ q - 1 - length e.gh.global = omega (arith, n) in
      rw (e1, e2) (rw e3 (label-local (q - 1 - length e.gh.global)))

  -- At a client that joined at sequence number 0, so that `current_seq` is the length of the global
  -- part, every entry of the undo queue points to the same operation of the site, by its site
  -- sequence number and group, after an operation of another site was entered.
  pub nth_in_undo_queue-take_remote :
      (i q : ℕ)
      → get_elem? e.gh.undo_queue i ≡ some q
      → 0 < q
      → q + 1 < 2 ^ 32
      → seq ≡ suc e.current_seq
      → seq < 2 ^ 32
      → e.current_seq ≡ length e.gh.global
      → Option.map label (nth_in_undo_queue (take_remote e op seq).1.gh i)
        ≡ Option.map label (nth_in_undo_queue e.gh i)
  nth_in_undo_queue-take_remote i q h pos small next_seq seq_small base =
      elim (Bool-cases (ltb e.current_seq q)) [
        | inl local ↦
            let lt : length e.gh.global < q = ground arith in
            let e1 : add_u32 q 1 ≡ q + 1 = omega arith in
            ap (Option.map label) (
              nth-pointed next i (q + 1)
                (queue-next i q h next_seq seq_small ∙ rw local (ap some e1)) (omega arith) small)
            ∙ pointed-local q lt
            ∙ ap (Option.map label) (sym (nth-pointed e.gh i q h pos (omega arith)))
        | inr global ↦
            let le : q ≤ length e.gh.global = ground arith in
            ap (Option.map label) (
              nth-pointed next i q (queue-next i q h next_seq seq_small ∙ rw global) pos
                (omega arith))
            ∙ pointed-global q pos le
            ∙ ap (Option.map label) (sym (nth-pointed e.gh i q h pos (omega arith)))
      ]

  -- At a client that joined at a later sequence number, the entry for its oldest pending operation
  -- points to the operation of the other site after that was entered.
  pub nth_in_undo_queue-joined_late :
      (i : ℕ)
      → get_elem? e.gh.undo_queue i ≡ some (suc (length e.gh.global))
      → seq ≡ suc e.current_seq
      → seq < 2 ^ 32
      → length e.gh.global < e.current_seq
      → nth_in_undo_queue (take_remote e op seq).1.gh i ≡ some (take_remote e op seq).0
  nth_in_undo_queue-joined_late i h next_seq seq_small joined =
      let stays : ltb e.current_seq (suc (length e.gh.global)) ≡ false = ground arith in
      let n : length next.global ≡ length e.gh.global + 1 =
        rw global-next (length-append e.gh.global ((take_remote e op seq).0 ∷ [])) in
      let e1 : suc (length e.gh.global) - 1 ≡ length e.gh.global = omega arith in
      let e2 : ltb (length e.gh.global) (length next.global) ≡ true = ground (arith, n) in
      nth-pointed next i (suc (length e.gh.global)) (queue-next i _ h next_seq seq_small ∙ rw stays)
        (omega arith) (omega arith)
      ∙ rw e1 (rw e2 (rw global-next (get_elem?-append_cons e.gh.global [] _)))
