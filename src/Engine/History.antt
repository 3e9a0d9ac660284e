-- ===== src/Engine/History.antt =====
-- `GlobalHistory`: the operations of the timeline and the queue of what the editor can undo.
use collab_mode.Prelude.{
  ℕ, ◌+◌, ◌-◌, ◌==◌, ltb, leb, Option, none, some, List, [], ◌∷◌, ◌++◌, length, get_elem?, set,
  take, drop, sub_u64, assert, if◌then◌else◌, ◌>>=◌,
}
use collab_mode.Op.{OpKind}
use collab_mode.Types.{EditorOpKind}
use collab_mode.Engine.{
  OpRecord, no_more_op_to_undo, no_ops_to_redo, undo_error, ok, err, Outcome, add_u32, as_u32,
}

pub record GlobalHistory : Type 0 where
  pub global : List OpRecord
  pub local : List OpRecord
  pub undo_queue : List ℕ
  pub undo_tip : Option ℕ

-- `GlobalHistory::new`
unfoldable pub new_history : GlobalHistory
new_history = record { global = []; local = []; undo_queue = []; undo_tip = none }

unfoldable pub total_len : GlobalHistory → ℕ
total_len gh = length gh.global + length gh.local

unfoldable pub ops_after : GlobalHistory → ℕ → List OpRecord
ops_after gh seq = if ltb seq (as_u32 (length gh.global)) then drop seq gh.global else []

-- The operations behind `seq` in both parts; an index past the end panics.
unfoldable pub all_ops_after : GlobalHistory → ℕ → Option (List OpRecord)
all_ops_after gh seq =
    if ltb seq (as_u32 (length gh.global))
    then some (drop seq gh.global ++ gh.local)
    else (let from = sub_u64 seq (length gh.global) in
        assert (leb from (length gh.local)) (some (drop from gh.local)))

unfoldable pub nth_in_undo_queue : GlobalHistory → ℕ → Option OpRecord
nth_in_undo_queue gh idxidx = get_elem? gh.undo_queue idxidx >>= λ seq.
    let idx = sub_u64 seq 1 in
    if ltb idx (length gh.global)
    then get_elem? gh.global idx
    else get_elem? gh.local (idx - length gh.global)

-- `undo_queue.drain(idx..)`
unfoldable pub drop_undone : GlobalHistory → Option GlobalHistory
drop_undone gh = elim gh.undo_tip [
  | none ↦ some gh
  | some idx ↦
      (assert (leb idx (length gh.undo_queue))
        (some (record gh { undo_queue = take idx gh.undo_queue })))
]

-- The queue entry `at` now points to the new operation, which undoes the one it pointed to.
unfoldable pub repoint : GlobalHistory → ℕ → Option ℕ → ℕ → Outcome GlobalHistory OpKind
repoint gh at tip op_seq = get_elem? gh.undo_queue at >>= λ seq. some (
  ok (OpKind.undo (sub_u64 (length gh.global + length gh.local + 1 + 1) (add_u32 seq 1))),
  record gh { undo_queue = set gh.undo_queue at op_seq; undo_tip = tip },
)

unfoldable pub undo_kind : GlobalHistory → ℕ → Outcome GlobalHistory OpKind
unfolding repoint
undo_kind gh op_seq = elim gh.undo_tip [
  | none ↦
      (if length gh.undo_queue == 0
        then some (err (undo_error no_more_op_to_undo), gh)
        else (let last = length gh.undo_queue - 1 in repoint gh last (some last) op_seq))
  | some idx ↦
      (if idx == 0
        then some (err (undo_error no_more_op_to_undo), gh)
        else repoint gh (idx - 1) (some (idx - 1)) op_seq)
]

unfoldable pub redo_kind : GlobalHistory → ℕ → Outcome GlobalHistory OpKind
unfolding repoint
redo_kind gh op_seq = elim gh.undo_tip [
  | none ↦ some (err (undo_error no_ops_to_redo), gh)
  | some idx ↦
      (repoint gh idx (if idx + 1 == length gh.undo_queue then none else some (idx + 1)) op_seq)
]

unfoldable pub process_opkind : GlobalHistory → EditorOpKind → ℕ → Outcome GlobalHistory OpKind
unfolding drop_undone undo_kind redo_kind
process_opkind gh EditorOpKind.original op_seq = drop_undone gh >>= λ gh.
    some
      (ok OpKind.original, record gh { undo_queue = gh.undo_queue ++ op_seq ∷ []; undo_tip = none })
process_opkind gh EditorOpKind.undo op_seq = undo_kind gh op_seq
process_opkind gh EditorOpKind.redo op_seq = redo_kind gh op_seq
