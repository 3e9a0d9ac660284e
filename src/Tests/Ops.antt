-- ===== src/Tests/Ops.antt =====
-- The theorems on operations at concrete inputs.
use collab_mode.Prelude.{◌+◌, ◌≡◌, ◌≢◌, refl, true, false, [], ◌∷◌, arith}
use collab_mode.Op.{
  mark, inverse, transform, pos_less_than, transform_ii, transform_di, transform_segments,
}
use collab_mode.Op.Converge.{apply-transform}
use collab_mode.Op.Keep.{Fits-transform}
use collab_mode.Op.Opposed.{apply-transform_opposed}
use collab_mode.Op.Invert.{shown-inverse}
use collab_mode.FatOp.{op_operation, symmetric_transform, quatradic_transform}
use collab_mode.FatOp.Converge.{apply_ops, apply_ops-quatradic_transform}
use collab_mode.FatOp.Transpose.{swap, quatradic_transform_comm}
use collab_mode.Document.{apply, shown, Fits, growth, mark_all, mark_at, insert_at}
use collab_mode.Tests.Sample.{abcd, del_bc, ins_xy, ops1, ops2}

-- The mark is cut in two by the insertion.
transform_di_runs : transform del_bc ins_xy ≡ mark ((1, 98 ∷ []) ∷ (4, 99 ∷ []) ∷ []) false 1
unfolding transform transform_segments transform_di pos_less_than
transform_di_runs = refl

both_shown :
    shown (apply_ops (quatradic_transform ops1 ops2).1 (apply_ops ops1 abcd))
    ≡ 122 ∷ 97 ∷ 120 ∷ 121 ∷ 100 ∷ []
unfolding shown quatradic_transform symmetric_transform transform transform_segments transform_ii
    transform_di pos_less_than apply mark_all mark_at insert_at
both_shown = refl

apply-transform_example :
    apply (transform ins_xy del_bc) (apply del_bc abcd)
    ≡ apply (transform del_bc ins_xy) (apply ins_xy abcd)
unfolding Fits growth
apply-transform_example =
    apply-transform del_bc ins_xy abcd tt (omega arith) (omega arith) (omega arith)

Fits-transform_example : Fits (transform del_bc ins_xy) (4 + growth ins_xy)
unfolding Fits growth
Fits-transform_example = Fits-transform del_bc ins_xy 4 (omega arith) (omega arith) (omega arith)

apply_ops-quatradic_transform_example :
    apply_ops (quatradic_transform ops1 ops2).1 (apply_ops ops1 abcd)
    ≡ apply_ops (quatradic_transform ops1 ops2).0 (apply_ops ops2 abcd)
unfolding Fits growth
apply_ops-quatradic_transform_example =
    apply_ops-quatradic_transform ops1 ops2 abcd (omega arith) (omega arith) (omega arith)
      (omega arith)

quatradic_transform_comm_example :
    quatradic_transform ops1 ops2 ≡ swap (quatradic_transform ops2 ops1)
quatradic_transform_comm_example = quatradic_transform_comm ops1 ops2

apply-transform_opposed_example :
    apply
      (transform (mark ((1, 98 ∷ []) ∷ []) true 2) (mark ((1, 98 ∷ []) ∷ []) false 1))
      (apply (mark ((1, 98 ∷ []) ∷ []) false 1) abcd)
    ≢ apply
        (transform (mark ((1, 98 ∷ []) ∷ []) false 1) (mark ((1, 98 ∷ []) ∷ []) true 2))
        (apply (mark ((1, 98 ∷ []) ∷ []) true 2) abcd)
apply-transform_opposed_example = apply-transform_opposed 1 1 2 98 [] abcd (omega arith)

shown-inverse_example : shown (apply (inverse del_bc) (apply del_bc abcd)) ≡ shown abcd
shown-inverse_example = shown-inverse del_bc abcd ((refl, (refl, tt)), tt)
