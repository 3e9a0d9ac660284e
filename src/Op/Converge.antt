-- ===== src/Op/Converge.antt =====
-- Convergence of two concurrent operations: applied in either order, each transformed against the
-- other, they give one document.
use collab_mode.Prelude.{
  ℕ, ◌+◌, ◌-◌, ◌^◌, ◌≤◌, ◌<◌, ◌≡◌, ◌≢◌, refl, sym, ap, ◌∙◌, Bool, true, false, ◌⊎◌, inl, inr, List,
  [], ◌∷◌, ◌++◌, arith, Text, length, length-take, length-drop, take, drop, add_u64, Bool-cases,
}
use collab_mode.Op.{
  Op, Segment, ins, mark, pos_less_than, transform_ii, transform_di, transform_segments, transform,
  push_nonempty,
}
use collab_mode.Document.{Document, insert_at, mark_at, mark_all, apply, growth, Fits}
use collab_mode.Document.Laws.{
  length-mark_at, insert_at_comm, mark_at_none, mark_at_after, mark_at_before, mark_at_split,
  mark_at_comm,
}

-- What decides whether two operations can be exchanged, and what no transformation changes.
pub data Shape : Type 0 where
  insertion : ℕ → Shape
  marking : Bool → Shape

abbrev pub shape : Op → Shape
shape (ins _ s) = insertion s
shape (mark _ live _) = marking live

-- Insertions by different sites, or marks that agree on the liveness.
abbrev pub CompatibleShapes : Shape → Shape → Type 0
CompatibleShapes (insertion s) (insertion s') = s ≢ s'
CompatibleShapes (marking l) (marking l') = l ≡ l'
CompatibleShapes _ _ = Unit

abbrev pub Compatible : Op → Op → Type 0
Compatible a b = CompatibleShapes (shape a) (shape b)

-- Of two positions at different sites exactly one precedes the other.
pos_less_than_cases :
    (p p' s s' : ℕ)
    → s ≢ s'
    → (pos_less_than p p' s s' ≡ true) × (pos_less_than p' p s' s ≡ false) × (p ≤ p')
      ⊎ (pos_less_than p p' s s' ≡ false) × (pos_less_than p' p s' s ≡ true) × (p' ≤ p)
unfolding pos_less_than
pos_less_than_cases p p' s s' h = ground arith

pub pos_less_than-true : (p p' s s' : ℕ) → pos_less_than p p' s s' ≡ true → p ≤ p'
unfolding pos_less_than
pos_less_than-true p p' s s' h = ground arith

pub pos_less_than-false : (p p' s s' : ℕ) → pos_less_than p p' s s' ≡ false → p' ≤ p
unfolding pos_less_than
pos_less_than-false p p' s s' h = ground arith

ins-ins :
    (p p' s s' : ℕ) (t t' : Text) (d : Document)
    → p ≤ length d
    → p' ≤ length d
    → length d + length t + length t' < 2 ^ 64
    → s ≢ s'
    → apply (transform (ins (p', t') s') (ins (p, t) s)) (insert_at p t d)
      ≡ apply (transform (ins (p, t) s) (ins (p', t') s')) (insert_at p' t' d)
unfolding apply transform transform_ii
ins-ins p p' s s' t t' d f f' bound ne = elim (pos_less_than_cases p p' s s' ne) [
  | inl (a, b, le) ↦ rw (a, b) (insert_at_comm p p' _ t t' d le f' (omega arith))
  | inr (a, b, le) ↦ rw (a, b) (sym (insert_at_comm p' p _ t' t d le f (omega arith)))
]

mark_all-append :
    (xs ys : List Segment) (b : Bool) (d : Document)
    → mark_all (xs ++ ys) b d ≡ mark_all ys b (mark_all xs b d)
unfolding mark_all
mark_all-append [] ys b d = refl
mark_all-append ((p, t) ∷ xs) ys b d = mark_all-append xs ys b (mark_at p (length t) b d)

pub length-mark_all :
    (xs : List Segment) (b : Bool) (d : Document) → length (mark_all xs b d) ≡ length d
unfolding mark_all
length-mark_all [] b d = refl
length-mark_all ((p, t) ∷ xs) b d =
    length-mark_all xs b (mark_at p (length t) b d) ∙ length-mark_at p (length t) b d

-- Dropping the empty halves of a split segment changes nothing.
mark_all-push_nonempty :
    (p : ℕ) (t : Text) (xs : List Segment) (b : Bool) (d : Document)
    → mark_all (push_nonempty (p, t) xs) b d ≡ mark_all xs b (mark_at p (length t) b d)
unfolding mark_all push_nonempty
mark_all-push_nonempty p [] xs b d = ap (mark_all xs b) (sym (mark_at_none p b d))
mark_all-push_nonempty p (c ∷ t) xs b d = ground arith

-- A mark around an insertion, cut in two at it.
mark_at-cut :
    (p m q n1 n2 n : ℕ) (t : Text) (b : Bool) (d : Document)
    → p ≤ length d
    → m + n1 ≡ p
    → n1 + n2 ≡ n
    → q ≡ p + length t
    → mark_at q n2 b (mark_at m n1 b (insert_at p t d)) ≡ insert_at p t (mark_at m n b d)
mark_at-cut p m q n1 n2 n t b d f e1 e2 e3 =
    ap (mark_at q n2 b) (mark_at_before m n1 p t b d (omega arith) f)
    ∙ mark_at_after p p q n2 t b (mark_at m n1 b d) (omega arith)
        (omega (arith, length-mark_at m n1 b d)) e3
    ∙ ap (insert_at p t) (mark_at_split m n1 n2 p n b d (omega arith) (omega arith))

-- One segment of a mark, transformed against an insertion.
mark_all-transform_di :
    (p m s s' : ℕ) (t u : Text) (b : Bool) (d : Document)
    → p ≤ length d
    → m + length u ≤ length d
    → length d + length t < 2 ^ 64
    → mark_all (transform_di (m, u) (p, t) s' s) b (insert_at p t d)
      ≡ insert_at p t (mark_at m (length u) b d)
unfolding transform_di mark_all
mark_all-transform_di p m s s' t u b d f g bound =
    elim (Bool-cases (pos_less_than (add_u64 m (length u)) p s' s)) [
      | inl first ↦
          let le = pos_less_than-true _ p s' s first in
          rw first (mark_at_before m (length u) p t b d (omega arith) f)
      | inr not_first ↦ elim (Bool-cases (pos_less_than p m s s')) [
        | inl later ↦
            let le = pos_less_than-true p m s s' later in
            rw (not_first, later)
              (mark_at_after p m _ (length u) t b d (omega arith) f (omega arith))
        | inr not_later ↦
            let ge = pos_less_than-false _ p s' s not_first in
            let le = pos_less_than-false p m s s' not_later in
            rw (not_first, not_later)
              (mark_all-push_nonempty m (take (p - m) u) _ b (insert_at p t d)
                ∙ mark_all-push_nonempty _ (drop (p - m) u) [] b _
                ∙ mark_at-cut p m _ _ _ (length u) t b d f (omega (arith, length-take (p - m) u))
                    (omega (arith, length-take (p - m) u, length-drop (p - m) u)) (omega arith))
      ]
    ]

mark_all-transform_segments :
    (segs : List Segment) (p s s' : ℕ) (t : Text) (b : Bool) (d : Document)
    → p ≤ length d
    → Fits (mark segs b s') (length d)
    → length d + length t < 2 ^ 64
    → mark_all (transform_segments segs (p, t) s' s) b (insert_at p t d)
      ≡ insert_at p t (mark_all segs b d)
unfolding mark_all transform_segments Fits
mark_all-transform_segments [] p s s' t b d f g bound = refl
mark_all-transform_segments ((m, u) ∷ segs) p s s' t b d f g bound =
    mark_all-append (transform_di (m, u) (p, t) s' s) _ b (insert_at p t d)
    ∙ ap (mark_all (transform_segments segs (p, t) s' s) b)
        (mark_all-transform_di p m s s' t u b d f g.0 bound)
    ∙ mark_all-transform_segments segs p s s' t b (mark_at m (length u) b d) (rw (length-mark_at) f)
        (rw (length-mark_at) g.1) (rw (length-mark_at) bound)

pub mark_at-mark_all :
    (xs : List Segment) (p n : ℕ) (b : Bool) (d : Document)
    → mark_at p n b (mark_all xs b d) ≡ mark_all xs b (mark_at p n b d)
unfolding mark_all
mark_at-mark_all [] p n b d = refl
mark_at-mark_all ((m, u) ∷ xs) p n b d =
    mark_at-mark_all xs p n b (mark_at m (length u) b d)
    ∙ ap (mark_all xs b) (mark_at_comm p m n (length u) b d)

mark_all_comm :
    (xs ys : List Segment) (b : Bool) (d : Document)
    → mark_all xs b (mark_all ys b d) ≡ mark_all ys b (mark_all xs b d)
unfolding mark_all
mark_all_comm [] ys b d = refl
mark_all_comm ((m, u) ∷ xs) ys b d =
    ap (mark_all xs b) (mark_at-mark_all ys m (length u) b d)
    ∙ mark_all_comm xs ys b (mark_at m (length u) b d)

-- Two concurrent operations that fit a document, by different sites if both insert and of one
-- liveness if both mark, give one document in either order, each transformed against the other,
-- provided that the positions stay below `2 ^ 64`.
pub apply-transform :
    (a b : Op) (d : Document)
    → Compatible a b
    → Fits a (length d)
    → Fits b (length d)
    → length d + growth a + growth b < 2 ^ 64
    → apply (transform b a) (apply a d) ≡ apply (transform a b) (apply b d)
unfolding Fits growth apply transform
apply-transform (ins (p, t) s) (ins (p', t') s') d c f g bound =
    ins-ins p p' s s' t t' d f g bound c
apply-transform (ins (p, t) s) (mark segs l s') d c f g bound =
    mark_all-transform_segments segs p s s' t l d f g (omega arith)
apply-transform (mark segs l s) (ins (p, t) s') d c f g bound =
    sym (mark_all-transform_segments segs p s' s t l d g f (omega arith))
apply-transform (mark xs l s) (mark ys l' s') d c f g bound = rw c (mark_all_comm ys xs l' d)
