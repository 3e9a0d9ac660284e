-- ===== src/FatOp.antt =====
-- Operations with meta information and the list transformations (collab_mode/src/op.rs).
pub mod Converge
pub mod Transpose
use collab_mode.Prelude.{ℕ, Option, List, [], ◌∷◌}
use collab_mode.Op.{Op, OpKind, site, inverse, transform}

-- The trait `Operation`.
pub record Operation {ℓ} (O : Type ℓ) : Type ℓ where
  pub transform_op : O → O → O
  pub inverse_op : O → O

instance abbrev pub op_operation : Operation Op
op_operation = record { transform_op = transform; inverse_op = inverse }

pub record FatOp {ℓ} (O : Type ℓ) : Type ℓ where
  pub seq : Option ℕ
  pub op : O
  pub site_seq : ℕ
  pub kind : OpKind
  pub group_seq : ℕ

unfoldable pub fat_site : FatOp Op → ℕ
unfolding site
fat_site f = site f.op

module _ {ℓ} {O : Type ℓ} ⦃c : Operation O⦄ where
  unfoldable pub fat_transform : FatOp O → FatOp O → FatOp O
  fat_transform self base = record self { op = c.transform_op self.op base.op }

  unfoldable pub batch_transform : FatOp O → List (FatOp O) → FatOp O
  batch_transform self [] = self
  batch_transform self (op ∷ ops) = batch_transform (fat_transform self op) ops

  -- The operation transformed past the list, and the list past the operation.
  unfoldable pub symmetric_transform : FatOp O → List (FatOp O) → FatOp O × List (FatOp O)
  unfolding fat_transform
  symmetric_transform self [] = (self, [])
  symmetric_transform self (op ∷ ops) =
      let (self', new_ops) = symmetric_transform (fat_transform self op) ops in
      (self', fat_transform op self ∷ new_ops)

  unfoldable pub quatradic_transform :
      List (FatOp O) → List (FatOp O) → List (FatOp O) × List (FatOp O)
  quatradic_transform ops1 [] = (ops1, [])
  quatradic_transform ops1 (op2 ∷ ops2) =
      let (op2', ops1') = symmetric_transform op2 ops1 in
      let (ops1'', ops2') = quatradic_transform ops1' ops2 in (ops1'', op2' ∷ ops2')

  unfoldable pub fat_inverse : FatOp O → FatOp O
  fat_inverse self = record self { op = c.inverse_op self.op }
