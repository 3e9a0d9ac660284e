-- ===== src/FatOp/Transpose.antt =====
-- `quatradic_transform` treats its two lists alike, so that a server that takes the new operations
-- one by one and a client that takes the earlier ones one by one compute the same operations.
use collab_mode.Prelude.{◌≡◌, refl, ap, ◌∙◌, List, [], ◌∷◌}
use collab_mode.FatOp.{FatOp, Operation, fat_transform, symmetric_transform, quatradic_transform}

abbrev pub swap {ℓ} : {A : Type ℓ} → A × A → A × A
swap (a, b) = (b, a)

module _ {ℓ} {O : Type ℓ} ⦃c : Operation O⦄ where
  quatradic_transform-nil : (b : List (FatOp O)) → quatradic_transform [] b ≡ ([], b)
  unfolding quatradic_transform symmetric_transform
  quatradic_transform-nil [] = refl
  quatradic_transform-nil (o ∷ os) =
      ap (λ (r : List (FatOp O) × List (FatOp O)). (r.0, o ∷ r.1)) (quatradic_transform-nil os)

  -- The first operation of the first list may be taken past the second list first.
  quatradic_transform-cons :
      (x : FatOp O) (a b : List (FatOp O))
      → quatradic_transform (x ∷ a) b ≡ (
          let (x', b') = symmetric_transform x b in
          let (a'', b'') = quatradic_transform a b' in (x' ∷ a'', b''))
  unfolding quatradic_transform symmetric_transform
  quatradic_transform-cons x a [] = refl
  quatradic_transform-cons x a (o ∷ os) =
      ap
        (λ (r : List (FatOp O) × List (FatOp O)).
          (r.0, (symmetric_transform (fat_transform o x) a).0 ∷ r.1))
        (quatradic_transform-cons (fat_transform x o) (symmetric_transform (fat_transform o x) a).1
          os)

  -- Transforming `a` against `b` is transforming `b` against `a`: the results of both lists are
  -- the same, operation by operation, with their meta information.
  pub quatradic_transform_comm :
      (a b : List (FatOp O)) → quatradic_transform a b ≡ swap (quatradic_transform b a)
  unfolding quatradic_transform
  quatradic_transform_comm [] b = quatradic_transform-nil b
  quatradic_transform_comm (x ∷ a) b =
      quatradic_transform-cons x a b
      ∙ ap (λ (r : List (FatOp O) × List (FatOp O)). ((symmetric_transform x b).0 ∷ r.0, r.1))
          (quatradic_transform_comm a (symmetric_transform x b).1)
