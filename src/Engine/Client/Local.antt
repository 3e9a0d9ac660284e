-- ===== src/Engine/Client/Local.antt =====
-- `ClientEngine::process_local_op`: an operation of the editor.
use collab_mode.Prelude.{
  ℕ, ◌+◌, ◌==◌, Bool, true, false, Option, none, some, List, [], ◌∷◌, ◌++◌, length, if◌then◌else◌,
  ◌>>=◌,
}
use collab_mode.Op.{Op}
use collab_mode.Types.{EditorOp, EditorOpKind, kind, EditInstruction, EditorFatOp}
use collab_mode.InternalDoc.Edits.{convert_editor_op_and_apply}
use collab_mode.Engine.{
  OpRecord, context_mismatch, site_seq_mismatch, empty_insert, delete_in_empty_doc, undo_error, ok,
  err, Outcome, add_u32, as_u32,
}
use collab_mode.Engine.History.{GlobalHistory, total_len, process_opkind}
use collab_mode.Engine.Client.{ClientEngine, client_convert_and_apply}
use collab_mode.Engine.Client.Undo.{generate_undo_op_1}

-- The operations to enter into the history, and the instructions for the editor.
abbrev pub Prepared : Type 0
Prepared = List Op × List EditInstruction

-- The engine after the editor's operation on its document.
unfoldable pub apply_editor_op :
    ClientEngine → EditorOp → EditInstruction → Outcome ClientEngine Prepared
unfolding convert_editor_op_and_apply
apply_editor_op e op instr = convert_editor_op_and_apply e.internal_doc op e.site_id >>= λ r.
    some (ok (r.0 ∷ [], instr ∷ []), record e { internal_doc = r.1 })

-- The loop over the operations that undo or redo.
unfoldable pub apply_undo_ops :
    ClientEngine → List OpRecord → Prepared → Option (Prepared × ClientEngine)
unfolding client_convert_and_apply
apply_undo_ops e [] done = some (done, e)
apply_undo_ops e (fat_op ∷ rest) done =
    let further = λ (e : ClientEngine) (done : Prepared). apply_undo_ops e rest done in
    client_convert_and_apply e fat_op.op >>= λ r.
    further r.1 (done.0 ++ fat_op.op ∷ [], done.1 ++ r.0.op ∷ [])

unfoldable pub undo_or_redo : ClientEngine → ℕ → Bool → Outcome ClientEngine Prepared
unfolding total_len generate_undo_op_1 apply_undo_ops
undo_or_redo e context redo =
    if total_len e.gh == context
    then (generate_undo_op_1 e.gh redo >>= λ ops.
        apply_undo_ops e ops ([], []) >>= λ r. some (ok r.0, r.1))
    else some (err (undo_error (context_mismatch (total_len e.gh) context)), e)

-- The match on the editor's operation.
unfoldable pub prepare : ClientEngine → EditorOp → Outcome ClientEngine Prepared
unfolding apply_editor_op undo_or_redo
prepare e (EditorOp.ins pos text) =
    if length text == 0
    then some (err (empty_insert (EditorOp.ins pos text)), e)
    else apply_editor_op e (EditorOp.ins pos text)
        (EditInstruction.ins (record { pos = pos; content = text } ∷ []))
prepare e (EditorOp.del pos text) =
    if length e.internal_doc.ranges == 0
    then some (err delete_in_empty_doc, e)
    else apply_editor_op e (EditorOp.del pos text)
        (EditInstruction.del (record { pos = pos; content = text } ∷ []))
prepare e (EditorOp.undo context) = undo_or_redo e context false
prepare e (EditorOp.redo context) = undo_or_redo e context true

-- The loop that enters the operations into the history.
unfoldable pub enter_ops :
    GlobalHistory → List Op → EditorOpKind → ℕ → ℕ → Outcome GlobalHistory (Unit {0})
unfolding process_opkind
enter_ops gh [] k site_seq group_seq = some (ok tt, gh)
enter_ops gh (op ∷ ops) k site_seq group_seq =
    let further = λ (gh : GlobalHistory). enter_ops gh ops k site_seq group_seq in
    process_opkind gh k (as_u32 (length gh.global + length gh.local + 1)) >>= λ r. elim r.0 [
      | err e ↦ some (err e, r.1)
      | ok op_kind ↦ further (record (r.1) {
        local =
            (r.1).local
            ++ record {
              seq = none;
              op = op;
              site_seq = site_seq;
              kind = op_kind;
              group_seq = group_seq;
            }
              ∷ [];
      })
    ]

unfoldable pub process_local_op :
    ClientEngine → EditorFatOp → ℕ → Outcome ClientEngine (List EditInstruction)
unfolding prepare enter_ops kind
process_local_op e editor_op site_seq =
    if site_seq == add_u32 e.current_site_seq 1
    then (prepare (record e { current_site_seq = site_seq }) editor_op.op >>= λ r. elim r.0 [
      | err error ↦ some (err error, r.1)
      | ok prepared ↦
          (enter_ops (r.1).gh prepared.0 (kind editor_op.op) site_seq editor_op.group_seq
            >>= λ entered.
                let e' = record (r.1) { gh = entered.1 } in
                elim entered.0 [
                  | err error ↦ some (err error, e')
                  | ok _ ↦ some (ok prepared.1, e')
                ])
    ])
    else some (err (site_seq_mismatch (add_u32 e.current_site_seq 1) editor_op.op), e)
