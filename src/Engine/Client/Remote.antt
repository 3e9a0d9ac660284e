-- ===== src/Engine/Client/Remote.antt =====
-- `ClientEngine::process_remote_op`: an operation in the order that the server gave.
pub mod Document
pub mod Agree
pub mod Queue
use collab_mode.Prelude.{
  ℕ, ◌+◌, ◌==◌, ltb, not, ◌||◌, Option, none, some, List, [], ◌∷◌, ◌++◌, map, if◌then◌else◌, ◌>>=◌,
}
use collab_mode.Op.{OpKind}
use collab_mode.FatOp.{op_operation, fat_site, symmetric_transform}
use collab_mode.Types.{EditorLeanOp}
use collab_mode.Engine.{
  OpRecord, op_missing, op_mismatch, seq_mismatch, seq_missing, ok, err, Outcome, add_u32, sub_u32,
}
use collab_mode.Engine.Client.{ClientEngine, client_convert_and_apply}

abbrev grow_delta : ℕ → OpKind → OpKind
grow_delta offset OpKind.original = OpKind.original
grow_delta offset (OpKind.undo delta) =
    if ltb offset delta then OpKind.undo (delta + 1) else OpKind.undo delta

-- An undo that reaches behind the local operations has one more operation to reach over.
unfoldable pub update_undo_deltas : ℕ → List OpRecord → List OpRecord
update_undo_deltas offset [] = []
update_undo_deltas offset (o ∷ os) =
    record o { kind = grow_delta offset o.kind } ∷ update_undo_deltas (offset + 1) os

-- The entries of the queue that point to local operations move on by one.
unfoldable pub shift_undo_queue : ℕ → List ℕ → List ℕ
shift_undo_queue prev_current_seq queue =
    map (λ seq. if ltb prev_current_seq seq then add_u32 seq 1 else seq) queue

-- An operation of this site comes back: it moves from the local part to the global part.
unfoldable pub acknowledge :
    ClientEngine → OpRecord → ℕ → Outcome ClientEngine (Option (EditorLeanOp × ℕ))
unfolding fat_site
acknowledge e op seq = elim e.gh.local [
  | [] ↦ some (err (op_missing op), e)
  | local_op ∷ rest ↦
      (if not (fat_site local_op == fat_site op) || not (local_op.site_seq == op.site_seq)
        then some (err (op_mismatch op local_op), record e { gh = record e.gh { local = rest } })
        else some (
          ok none,
          record e {
            gh = record e.gh { local = rest; global = e.gh.global ++ op ∷ [] };
            current_seq = seq;
          },
        ))
]

-- The engine with the operation of another site in its history.
unfoldable pub take_remote : ClientEngine → OpRecord → ℕ → OpRecord × ClientEngine
unfolding symmetric_transform update_undo_deltas shift_undo_queue
take_remote e op seq =
    let (op', new_local_ops) = symmetric_transform op e.gh.local in
    (
      op',
      record e {
        gh = record e.gh {
          global = e.gh.global ++ op' ∷ [];
          local = update_undo_deltas 0 new_local_ops;
          undo_queue = shift_undo_queue (sub_u32 seq 1) e.gh.undo_queue;
        };
        current_seq = seq;
      },
    )

unfoldable pub process_remote_op :
    ClientEngine → OpRecord → Outcome ClientEngine (Option (EditorLeanOp × ℕ))
unfolding acknowledge take_remote client_convert_and_apply fat_site
process_remote_op e op = elim op.seq [
  | none ↦ some (err (seq_missing op), e)
  | some seq ↦
      (if seq == add_u32 e.current_seq 1
        then (if fat_site op == e.site_id
            then acknowledge e op seq
            else (let (op', e') = take_remote e op seq in
                client_convert_and_apply e' op'.op >>= λ r. some (ok (some (r.0, seq)), r.1)))
        else some (err (seq_mismatch (add_u32 e.current_seq 1) op), e))
]
