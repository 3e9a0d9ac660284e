-- ===== src/Engine/Client/Undo.antt =====
-- The generation of undo and redo operations.
use collab_mode.Prelude.{
  ℕ, zero, suc, ◌+◌, ◌-◌, ◌==◌, ltb, Bool, true, false, not, Option, none, some, List, [], ◌∷◌,
  ◌++◌, length, get_elem?, if◌then◌else◌, ◌>>=◌,
}
use collab_mode.FatOp.{op_operation, batch_transform, fat_inverse}
use collab_mode.Types.{EditInstruction}
use collab_mode.Engine.{OpRecord}
use collab_mode.Engine.History.{GlobalHistory, total_len, all_ops_after, nth_in_undo_queue}
use collab_mode.Engine.Client.{ClientEngine, convert_internal_ops_dont_apply}

-- The operation belongs to another group than those before it.
abbrev other_group : Option ℕ → ℕ → Bool
other_group none group = false
other_group (some prev) group = not (prev == group)

-- The operation that undoes the entry `at` of the queue, after `done`.
unfoldable pub undo_entry : GlobalHistory → ℕ → OpRecord → List OpRecord → Option OpRecord
unfolding all_ops_after fat_inverse batch_transform
undo_entry gh at op done = get_elem? gh.undo_queue at >>= λ seq.
    all_ops_after gh seq >>= λ base. some (batch_transform (fat_inverse op) (base ++ done))

-- The loop over a group. A round moves one entry along the queue, or panics past its end, so that
-- one more round than the queue has entries is fuel enough.
unfoldable pub undo_loop :
    Bool → GlobalHistory → ℕ → ℕ → Option ℕ → List OpRecord → Option (List OpRecord)
unfolding nth_in_undo_queue undo_entry
undo_loop redo gh zero idxidx prev_group_seq ops = none
undo_loop redo gh (suc fuel) idxidx prev_group_seq ops =
    let further = λ (idxidx : ℕ) (prev : Option ℕ) (ops : List OpRecord).
      undo_loop redo gh fuel idxidx prev ops in
    if (if redo then ltb idxidx (length gh.undo_queue) else ltb 0 idxidx)
    then (let at = if redo then idxidx else idxidx - 1 in
        nth_in_undo_queue gh at >>= λ op.
        if other_group prev_group_seq op.group_seq
        then some ops
        else undo_entry gh at op ops >>= λ undone.
            further (if redo then at + 1 else at) (some op.group_seq) (ops ++ undone ∷ []))
    else some ops

unfoldable pub generate_undo_op_1 : GlobalHistory → Bool → Option (List OpRecord)
unfolding undo_loop
generate_undo_op_1 gh true = elim gh.undo_tip [
  | none ↦ some []
  | some tip ↦ undo_loop true gh (suc (length gh.undo_queue)) tip none []
]
generate_undo_op_1 gh false =
    let from : ℕ = elim gh.undo_tip [ none ↦ length gh.undo_queue | some tip ↦ tip ] in
    if from == 0 then some [] else undo_loop false gh (suc (length gh.undo_queue)) from none []

unfoldable pub generate_undo_op : ClientEngine → Option (List EditInstruction × ℕ)
unfolding generate_undo_op_1 convert_internal_ops_dont_apply total_len
generate_undo_op e = generate_undo_op_1 e.gh false >>= λ ops.
    convert_internal_ops_dont_apply e ops >>= λ instrs. some (instrs, total_len e.gh)

unfoldable pub generate_redo_op : ClientEngine → Option (List EditInstruction × ℕ)
unfolding generate_undo_op_1 convert_internal_ops_dont_apply total_len
generate_redo_op e = generate_undo_op_1 e.gh true >>= λ ops.
    convert_internal_ops_dont_apply e ops >>= λ instrs. some (instrs, total_len e.gh)
