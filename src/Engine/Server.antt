-- ===== src/Engine/Server.antt =====
-- `ServerEngine`: puts the operations of all sites in one order.
pub mod Timeline
use collab_mode.Prelude.{ℕ, Option, some, List, [], ◌∷◌, ◌++◌, ◌>>=◌}
use collab_mode.FatOp.{op_operation, quatradic_transform}
use collab_mode.Types.{EditInstruction}
use collab_mode.InternalDoc.{InternalDoc, new, editor_len}
use collab_mode.InternalDoc.Edits.{convert_internal_op_and_apply}
use collab_mode.Engine.{OpRecord, add_u32}
use collab_mode.Engine.History.{GlobalHistory, new_history, ops_after}

pub record ServerEngine : Type 0 where
  pub gh : GlobalHistory
  pub internal_doc : InternalDoc
  pub current_seq : ℕ

-- `ServerEngine::new`
unfoldable pub new_server : ℕ → ServerEngine
unfolding new new_history
new_server init_len = record { gh = new_history; internal_doc = new init_len; current_seq = 0 }

unfoldable pub global_ops_after : ServerEngine → ℕ → List OpRecord
unfolding ops_after
global_ops_after s seq = ops_after s.gh seq

unfoldable pub server_editor_len : ServerEngine → ℕ
unfolding editor_len
server_editor_len s = editor_len s.internal_doc

-- `ServerEngine::convert_internal_op_and_apply`
unfoldable pub server_convert_and_apply :
    ServerEngine → OpRecord → Option (EditInstruction × ServerEngine)
unfolding convert_internal_op_and_apply
server_convert_and_apply s o = convert_internal_op_and_apply s.internal_doc o.op >>= λ r.
    some (r.0, record s { internal_doc = r.1 })

-- The loop that assigns sequence numbers, with the last one assigned.
unfoldable pub assign_seqs : ℕ → List OpRecord → List OpRecord × ℕ
assign_seqs current_seq [] = ([], current_seq)
assign_seqs current_seq (o ∷ os) =
    let (os', last) = assign_seqs (add_u32 current_seq 1) os in
    (record o { seq = some (add_u32 current_seq 1) } ∷ os', last)

unfoldable pub process_ops : ServerEngine → List OpRecord → ℕ → List OpRecord × ServerEngine
unfolding ops_after quatradic_transform assign_seqs
process_ops s ops context =
    let (_, ops') = quatradic_transform (ops_after s.gh context) ops in
    let (ops'', last) = assign_seqs s.current_seq ops' in
    (ops'', record s { gh = record s.gh { global = s.gh.global ++ ops'' }; current_seq = last })
