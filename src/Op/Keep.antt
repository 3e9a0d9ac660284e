-- ===== src/Op/Keep.antt =====
-- What a transformation keeps: the shape, the number of characters added, and that the operation
-- fits the document.
use collab_mode.Prelude.{
  ℕ, ◌+◌, ◌-◌, ◌^◌, ◌≤◌, ◌<◌, ◌≡◌, refl, inl, inr, List, [], ◌∷◌, ◌++◌, arith, Text, length,
  length-take, length-drop, take, drop, add_u64, Bool-cases, All,
}
use collab_mode.Op.{
  Op, Segment, ins, mark, pos_less_than, transform_ii, transform_di, transform_segments, transform,
  push_nonempty,
}
use collab_mode.Op.Converge.{shape, length-mark_all, pos_less_than-false}
use collab_mode.Document.{Document, apply, growth, Fits}
use collab_mode.Document.Laws.{length-insert_at}

pub shape-transform : (a b : Op) → shape (transform a b) ≡ shape a
unfolding transform
shape-transform (ins x s) (ins y s') = refl
shape-transform (ins x s) (mark y l s') = refl
shape-transform (mark x l s) (ins y s') = refl
shape-transform (mark x l s) (mark y l' s') = refl

pub growth-transform : (a b : Op) → growth (transform a b) ≡ growth a
unfolding transform growth transform_ii pos_less_than
growth-transform (ins (p, t) s) (ins (p', t') s') = ground arith
growth-transform (ins x s) (mark y l s') = refl
growth-transform (mark x l s) (ins y s') = refl
growth-transform (mark x l s) (mark y l' s') = refl

pub length-apply : (a : Op) (d : Document) → length (apply a d) ≡ length d + growth a
unfolding apply growth
length-apply (ins (p, t) s) d = omega (arith, length-insert_at p t d)
length-apply (mark segs l s) d = omega (arith, length-mark_all segs l d)

-- Every segment ends within `n` characters.
abbrev Inside : ℕ → List Segment → Type 0
Inside n segs = All (λ (s : Segment). s.0 + length s.1 ≤ n) segs

Inside-append : (n : ℕ) (xs ys : List Segment) → Inside n xs → Inside n ys → Inside n (xs ++ ys)
Inside-append n [] ys h k = k
Inside-append n (x ∷ xs) ys h k = (h.0, Inside-append n xs ys h.1 k)

push_nonempty-cons :
    (p c : ℕ) (t : Text) (segs : List Segment) → push_nonempty (p, c ∷ t) segs ≡ (p, c ∷ t) ∷ segs
unfolding push_nonempty
push_nonempty-cons p c t segs = ground arith

Inside-push_nonempty :
    (n p : ℕ) (t : Text) (segs : List Segment)
    → p + length t ≤ n
    → Inside n segs
    → Inside n (push_nonempty (p, t) segs)
Inside-push_nonempty n p [] segs h k = unfold push_nonempty in k
Inside-push_nonempty n p (c ∷ t) segs h k = rw push_nonempty-cons (h, k)

Inside-transform_di :
    (n m p s s' : ℕ) (u t : Text)
    → m + length u ≤ n
    → p ≤ n
    → n + length t < 2 ^ 64
    → Inside (n + length t) (transform_di (m, u) (p, t) s s')
unfolding transform_di
Inside-transform_di n m p s s' u t h k bound =
    elim (Bool-cases (pos_less_than (add_u64 m (length u)) p s s')) [
      | inl first ↦ rw first (omega arith, tt)
      | inr not_first ↦ elim (Bool-cases (pos_less_than p m s' s)) [
        | inl later ↦ rw (not_first, later) (omega arith, tt)
        | inr not_later ↦
            let ge = pos_less_than-false _ p s s' not_first in
            let le = pos_less_than-false p m s' s not_later in
            rw (not_first, not_later)
              (Inside-push_nonempty (n + length t) m (take (p - m) u) _
                (omega (arith, length-take (p - m) u))
                (Inside-push_nonempty (n + length t) (add_u64 p (length t)) (drop (p - m) u) []
                  (omega (arith, length-drop (p - m) u)) tt))
      ]
    ]

Inside-transform_segments :
    (n p s s' : ℕ) (segs : List Segment) (t : Text)
    → Inside n segs
    → p ≤ n
    → n + length t < 2 ^ 64
    → Inside (n + length t) (transform_segments segs (p, t) s s')
unfolding transform_segments
Inside-transform_segments n p s s' [] t h k bound = tt
Inside-transform_segments n p s s' ((m, u) ∷ segs) t h k bound =
    Inside-append _ (transform_di (m, u) (p, t) s s') _
      (Inside-transform_di n m p s s' u t h.0 k bound)
      (Inside-transform_segments n p s s' segs t h.1 k bound)

-- What fits a document fits it, transformed, after a concurrent operation.
pub Fits-transform :
    (a b : Op) (n : ℕ)
    → Fits a n
    → Fits b n
    → n + growth b < 2 ^ 64
    → Fits (transform a b) (n + growth b)
unfolding Fits growth transform transform_ii pos_less_than
Fits-transform (ins (p, t) s) (ins (p', t') s') n f g bound = ground arith
Fits-transform (ins (p, t) s) (mark segs l s') n f g bound = omega arith
Fits-transform (mark segs l s) (ins (p, t) s') n f g bound =
    Inside-transform_segments n p s s' segs t f g bound
Fits-transform (mark xs l s) (mark ys l' s') n f g bound =
    let e : n ≡ n + 0 = omega arith in rw e at f
