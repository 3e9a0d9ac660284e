-- ===== src/Engine/Client/Remote/Document.antt =====
-- What a client's history means while operations of other sites arrive.
use collab_mode.Prelude.{ℕ, ◌+◌, ◌^◌, ◌<◌, ◌≡◌, refl, sym, ◌∙◌, List, [], ◌∷◌, length}
use collab_mode.Op.Converge.{shape}
use collab_mode.FatOp.{op_operation, symmetric_transform}
use collab_mode.FatOp.Converge.{
  apply_ops, growth_ops, FitsAll, CompatibleWith, shapes, symmetric_transform-apply,
}
use collab_mode.Document.{Document, apply, growth, Fits}
use collab_mode.Engine.{OpRecord}
use collab_mode.Engine.Client.{ClientEngine}
use collab_mode.Engine.Client.Remote.{update_undo_deltas, take_remote}

apply_ops-update_undo_deltas :
    (n : ℕ) (os : List OpRecord) (d : Document)
    → apply_ops (update_undo_deltas n os) d ≡ apply_ops os d
unfolding update_undo_deltas
apply_ops-update_undo_deltas n [] d = refl
apply_ops-update_undo_deltas n (o ∷ os) d = apply_ops-update_undo_deltas (n + 1) os (apply o.op d)

-- Let `base` be the document that the server's operations so far give, so that the client shows
-- `base` with its local operations. Let an operation arrive that is compatible with every local
-- one (by another site where both insert, of the same liveness where both mark), let it and the
-- local operations fit `base`, and let the length of `base` and all their insertions add up to
-- less than `2 ^ 64`. Then `base` changes by that operation as it came, and what the client shows,
-- its transformed local operations on the new `base`, is what it showed before with the operation
-- that is handed on for the editor.
pub apply_ops-take_remote :
    (e : ClientEngine) (op : OpRecord) (seq : ℕ) (base : Document)
    → CompatibleWith (shapes e.gh.local) (shape op.op)
    → Fits op.op (length base)
    → FitsAll e.gh.local (length base)
    → length base + growth op.op + growth_ops e.gh.local < 2 ^ 64
    → apply_ops (take_remote e op seq).1.gh.local (apply op.op base)
      ≡ apply (take_remote e op seq).0.op (apply_ops e.gh.local base)
unfolding take_remote
apply_ops-take_remote e op seq base c f g bound =
    apply_ops-update_undo_deltas 0 (symmetric_transform op e.gh.local).1 (apply op.op base)
    ∙ sym (symmetric_transform-apply op e.gh.local base c f g bound)
