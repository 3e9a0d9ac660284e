-- ===== src/FatOp/Converge.antt =====
-- Convergence of two concurrent lists of operations under `quatradic_transform`.
use collab_mode.Prelude.{
  ℕ, ◌+◌, ◌^◌, ◌<◌, ◌≡◌, refl, ap, ◌∙◌, List, [], ◌∷◌, ◌++◌, map, arith, length, All,
}
use collab_mode.Op.{Op, transform}
use collab_mode.Op.Converge.{Shape, shape, CompatibleShapes, apply-transform}
use collab_mode.Op.Keep.{shape-transform, growth-transform, length-apply, Fits-transform}
use collab_mode.Document.{Document, apply, growth, Fits}
use collab_mode.FatOp.{FatOp, op_operation, fat_transform, symmetric_transform, quatradic_transform}

abbrev pub apply_ops : List (FatOp Op) → Document → Document
apply_ops [] d = d
apply_ops (o ∷ os) d = apply_ops os (apply o.op d)

pub apply_ops-append :
    (os ps : List (FatOp Op)) (d : Document)
    → apply_ops (os ++ ps) d ≡ apply_ops ps (apply_ops os d)
apply_ops-append [] ps d = refl
apply_ops-append (o ∷ os) ps d = apply_ops-append os ps (apply o.op d)

abbrev pub growth_ops : List (FatOp Op) → ℕ
growth_ops [] = 0
growth_ops (o ∷ os) = growth o.op + growth_ops os

-- Each operation fits the document that those before it leave.
abbrev pub FitsAll : List (FatOp Op) → ℕ → Type 0
FitsAll [] n = Unit
FitsAll (o ∷ os) n = Fits o.op n × FitsAll os (n + growth o.op)

abbrev pub shapes : List (FatOp Op) → List Shape
shapes os = map (λ o. shape o.op) os

abbrev pub CompatibleWith : List Shape → Shape → Type 0
CompatibleWith xs y = All (λ x. CompatibleShapes x y) xs

-- Every operation of one list is compatible with every one of the other.
abbrev pub CompatibleAll : List (FatOp Op) → List (FatOp Op) → Type 0
CompatibleAll os ps = All (CompatibleWith (shapes os)) (shapes ps)

-- What `symmetric_transform` gives for `self` against `ops` at a document of `n` characters.
record Exchanged (self : FatOp Op) (ops : List (FatOp Op)) (d : Document) : Type 0 where
  commutes :
      apply (symmetric_transform self ops).0.op (apply_ops ops d)
      ≡ apply_ops (symmetric_transform self ops).1 (apply self.op d)
  same_shape : shape (symmetric_transform self ops).0.op ≡ shape self.op
  same_shapes : shapes (symmetric_transform self ops).1 ≡ shapes ops
  same_growth : growth (symmetric_transform self ops).0.op ≡ growth self.op
  same_growths : growth_ops (symmetric_transform self ops).1 ≡ growth_ops ops
  self_fits : Fits (symmetric_transform self ops).0.op (length d + growth_ops ops)
  ops_fit : FitsAll (symmetric_transform self ops).1 (length d + growth self.op)

Exchanged-cons :
    (self o : FatOp Op) (os : List (FatOp Op)) (d : Document)
    → CompatibleShapes (shape o.op) (shape self.op)
    → Fits self.op (length d)
    → Fits o.op (length d)
    → length d + growth self.op + growth_ops (o ∷ os) < 2 ^ 64
    → Exchanged (fat_transform self o) os (apply o.op d)
    → Exchanged self (o ∷ os) d
unfolding symmetric_transform
Exchanged-cons self o os d c f g bound ih = record {
  commutes =
      ih.commutes
      ∙ ap (apply_ops (symmetric_transform (fat_transform self o) os).1)
          (apply-transform o.op self.op d c g f (omega arith));
  same_shape = ih.same_shape ∙ shape-transform self.op o.op;
  same_shapes = cc (ih.same_shapes, shape-transform o.op self.op);
  same_growth = ih.same_growth ∙ growth-transform self.op o.op;
  same_growths = omega (arith, ih.same_growths, growth-transform o.op self.op);
  self_fits =
      let e : length (apply o.op d) + growth_ops os ≡ length d + (growth o.op + growth_ops os) =
        omega (arith, length-apply o.op d) in
      rw e at ih.self_fits;
  ops_fit = (
    Fits-transform o.op self.op (length d) g f (omega arith),
    (let e : length (apply o.op d) + growth (transform self.op o.op)
            ≡ length d + growth self.op + growth (transform o.op self.op) =
          omega (
            arith,
            length-apply o.op d,
            growth-transform self.op o.op,
            growth-transform o.op self.op,
          ) in
        rw e at ih.ops_fit),
  );
}

symmetric_transform-Exchanged :
    (self : FatOp Op) (ops : List (FatOp Op)) (d : Document)
    → CompatibleWith (shapes ops) (shape self.op)
    → Fits self.op (length d)
    → FitsAll ops (length d)
    → length d + growth self.op + growth_ops ops < 2 ^ 64
    → Exchanged self ops d
unfolding symmetric_transform
symmetric_transform-Exchanged self [] d c f g bound = record {
  commutes = refl;
  same_shape = refl;
  same_shapes = refl;
  same_growth = refl;
  same_growths = refl;
  self_fits = let e : length d + 0 ≡ length d = omega arith in rw e (f);
  ops_fit = tt;
}
symmetric_transform-Exchanged self (o ∷ os) d c f g bound =
    Exchanged-cons self o os d c.0 f g.0 bound (
      symmetric_transform-Exchanged (fat_transform self o) os (apply o.op d)
        (rw (shape-transform self.op o.op) c.1)
        (rw (length-apply o.op d) (Fits-transform self.op o.op (length d) f g.0 (omega arith)))
        (rw (length-apply o.op d) g.1)
        (omega (arith, length-apply o.op d, growth-transform self.op o.op)))

-- One operation and a list, transformed against each other by `symmetric_transform`, commute.
pub symmetric_transform-apply :
    (self : FatOp Op) (ops : List (FatOp Op)) (d : Document)
    → CompatibleWith (shapes ops) (shape self.op)
    → Fits self.op (length d)
    → FitsAll ops (length d)
    → length d + growth self.op + growth_ops ops < 2 ^ 64
    → apply (symmetric_transform self ops).0.op (apply_ops ops d)
      ≡ apply_ops (symmetric_transform self ops).1 (apply self.op d)
symmetric_transform-apply self ops d c f g bound =
    (symmetric_transform-Exchanged self ops d c f g bound).commutes

-- Two concurrent lists of operations that fit a document, every operation of the one compatible
-- with every one of the other, give one document in either order, each list transformed against
-- the other by `quatradic_transform`, provided that all positions stay below `2 ^ 64`.
pub apply_ops-quatradic_transform :
    (ops1 ops2 : List (FatOp Op)) (d : Document)
    → CompatibleAll ops1 ops2
    → FitsAll ops1 (length d)
    → FitsAll ops2 (length d)
    → length d + growth_ops ops1 + growth_ops ops2 < 2 ^ 64
    → apply_ops (quatradic_transform ops1 ops2).1 (apply_ops ops1 d)
      ≡ apply_ops (quatradic_transform ops1 ops2).0 (apply_ops ops2 d)
unfolding quatradic_transform
apply_ops-quatradic_transform ops1 [] d c f g bound = refl
apply_ops-quatradic_transform ops1 (o ∷ ops2) d c f g bound =
    let x = symmetric_transform-Exchanged o ops1 d c.0 g.0 f (omega arith) in
    ap (apply_ops (quatradic_transform (symmetric_transform o ops1).1 ops2).1) x.commutes
    ∙ apply_ops-quatradic_transform (symmetric_transform o ops1).1 ops2 (apply o.op d)
        (rw x.same_shapes c.1) (rw (length-apply o.op d) x.ops_fit) (rw (length-apply o.op d) g.1)
        (omega (arith, length-apply o.op d, x.same_growths))
