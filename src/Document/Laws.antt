-- ===== src/Document/Laws.antt =====
-- The laws of the document: insertions and marks at different places commute.
use collab_mode.Prelude.{
  ℕ, zero, suc, ◌+◌, ◌≤◌, ◌≡◌, refl, sym, ap, ◌∙◌, Bool, [], ◌∷◌, ◌++◌, arith, Text, length,
  length-append, length-map,
}
use collab_mode.Document.{Document, Cell, cells, insert_at, mark_at}

pub length-cells : (t : Text) → length (cells t) ≡ length t
length-cells t = length-map _ t

pub length-insert_at :
    (p : ℕ) (t : Text) (d : Document) → length (insert_at p t d) ≡ length t + length d
unfolding insert_at
length-insert_at zero t d = omega (arith, length-append (cells t) d, length-cells t)
length-insert_at (suc p) t [] = omega (arith, length-cells t)
length-insert_at (suc p) t (c ∷ d) = omega (arith, length-insert_at p t d)

pub length-mark_at : (p n : ℕ) (b : Bool) (d : Document) → length (mark_at p n b d) ≡ length d
unfolding mark_at
length-mark_at p n b [] = refl
length-mark_at (suc p) n b (c ∷ d) = ap suc (length-mark_at p n b d)
length-mark_at zero zero b (c ∷ d) = refl
length-mark_at zero (suc n) b (c ∷ d) = ap suc (length-mark_at zero n b d)

-- A position behind a text is reached through it.
pub insert_at-append :
    (xs : Document) (q p : ℕ) (t : Text) (d : Document)
    → q ≡ length xs + p
    → insert_at q t (xs ++ d) ≡ xs ++ insert_at p t d
unfolding insert_at
insert_at-append [] q p t d e = let e' : q ≡ p = omega arith in ap (λ k. insert_at k t d) e'
insert_at-append (x ∷ xs) zero p t d e = absurd (omega arith)
insert_at-append (x ∷ xs) (suc q) p t d e = ap (x ∷◌) (insert_at-append xs q p t d (omega arith))

-- Of two insertions the later one moves behind the earlier one's text.
pub insert_at_comm :
    (p1 p2 q : ℕ) (t1 t2 : Text) (d : Document)
    → p1 ≤ p2
    → p2 ≤ length d
    → q ≡ p2 + length t1
    → insert_at q t2 (insert_at p1 t1 d) ≡ insert_at p1 t1 (insert_at p2 t2 d)
unfolding insert_at
insert_at_comm zero p2 q t1 t2 d h k e =
    insert_at-append (cells t1) q p2 t2 d (omega (arith, length-cells t1))
insert_at_comm (suc p1) zero q t1 t2 d h k e = absurd (omega arith)
insert_at_comm (suc p1) (suc p2) q t1 t2 [] h k e = absurd (omega arith)
insert_at_comm (suc p1) (suc p2) zero t1 t2 (c ∷ d) h k e = absurd (omega arith)
insert_at_comm (suc p1) (suc p2) (suc q) t1 t2 (c ∷ d) h k e =
    ap (c ∷◌) (insert_at_comm p1 p2 q t1 t2 d (omega arith) (omega arith) (omega arith))

pub mark_at_none : (p : ℕ) (b : Bool) (d : Document) → mark_at p 0 b d ≡ d
unfolding mark_at
mark_at_none p b [] = refl
mark_at_none (suc p) b (c ∷ d) = ap (c ∷◌) (mark_at_none p b d)
mark_at_none zero b (c ∷ d) = refl

pub mark_at-append :
    (xs : Document) (q p n : ℕ) (b : Bool) (d : Document)
    → q ≡ length xs + p
    → mark_at q n b (xs ++ d) ≡ xs ++ mark_at p n b d
mark_at-append [] q p n b d e = let e' : q ≡ p = omega arith in ap (λ k. mark_at k n b d) e'
mark_at-append (x ∷ xs) zero p n b d e = absurd (omega arith)
mark_at-append (x ∷ xs) (suc q) p n b d e =
    mark_at_cons x q n b (xs ++ d) ∙ ap (x ∷◌) (mark_at-append xs q p n b d (omega arith))
  where
    mark_at_cons :
        (c : Cell) (p n : ℕ) (b : Bool) (d : Document)
        → mark_at (suc p) n b (c ∷ d) ≡ c ∷ mark_at p n b d
    mark_at_cons c p n b d = unfold mark_at in refl

-- An insertion at or before a mark moves the mark.
pub mark_at_after :
    (p m q n : ℕ) (t : Text) (b : Bool) (d : Document)
    → p ≤ m
    → p ≤ length d
    → q ≡ m + length t
    → mark_at q n b (insert_at p t d) ≡ insert_at p t (mark_at m n b d)
unfolding insert_at mark_at
mark_at_after zero m q n t b d h k e =
    mark_at-append (cells t) q m n b d (omega (arith, length-cells t))
mark_at_after (suc p) zero q n t b d h k e = absurd (omega arith)
mark_at_after (suc p) (suc m) q n t b [] h k e = absurd (omega arith)
mark_at_after (suc p) (suc m) zero n t b (c ∷ d) h k e = absurd (omega arith)
mark_at_after (suc p) (suc m) (suc q) n t b (c ∷ d) h k e =
    ap (c ∷◌) (mark_at_after p m q n t b d (omega arith) (omega arith) (omega arith))

-- An insertion at or behind the end of a mark leaves it where it is.
pub mark_at_before :
    (m n p : ℕ) (t : Text) (b : Bool) (d : Document)
    → m + n ≤ p
    → p ≤ length d
    → mark_at m n b (insert_at p t d) ≡ insert_at p t (mark_at m n b d)
unfolding insert_at mark_at
mark_at_before zero zero p t b d h k =
    mark_at_none 0 b (insert_at p t d) ∙ ap (insert_at p t) (sym (mark_at_none 0 b d))
mark_at_before (suc m) n zero t b d h k = absurd (omega arith)
mark_at_before zero (suc n) zero t b d h k = absurd (omega arith)
mark_at_before (suc m) n (suc p) t b [] h k = absurd (omega arith)
mark_at_before zero (suc n) (suc p) t b [] h k = absurd (omega arith)
mark_at_before (suc m) n (suc p) t b (c ∷ d) h k =
    ap (c ∷◌) (mark_at_before m n p t b d (omega arith) (omega arith))
mark_at_before zero (suc n) (suc p) t b (c ∷ d) h k =
    ap (record c { live = b } ∷◌) (mark_at_before zero n p t b d (omega arith) (omega arith))

-- A mark splits at any point inside it.
pub mark_at_split :
    (m n1 n2 q n : ℕ) (b : Bool) (d : Document)
    → q ≡ m + n1
    → n ≡ n1 + n2
    → mark_at q n2 b (mark_at m n1 b d) ≡ mark_at m n b d
unfolding mark_at
mark_at_split m n1 n2 q n b [] e f = refl
mark_at_split (suc m) n1 n2 zero n b (c ∷ d) e f = absurd (omega arith)
mark_at_split (suc m) n1 n2 (suc q) n b (c ∷ d) e f =
    ap (c ∷◌) (mark_at_split m n1 n2 q n b d (omega arith) f)
mark_at_split zero zero n2 (suc q) n b (c ∷ d) e f = absurd (omega arith)
mark_at_split zero zero n2 zero n b (c ∷ d) e f =
    let f' : n2 ≡ n = omega arith in ap (λ k. mark_at zero k b (c ∷ d)) f'
mark_at_split zero (suc n1) n2 zero n b (c ∷ d) e f = absurd (omega arith)
mark_at_split zero (suc n1) n2 (suc q) zero b (c ∷ d) e f = absurd (omega arith)
mark_at_split zero (suc n1) n2 (suc q) (suc n) b (c ∷ d) e f =
    ap (record c { live = b } ∷◌) (mark_at_split zero n1 n2 q n b d (omega arith) (omega arith))

-- Marks of one kind commute.
pub mark_at_comm :
    (p m : ℕ) (n k : ℕ) (b : Bool) (d : Document)
    → mark_at p n b (mark_at m k b d) ≡ mark_at m k b (mark_at p n b d)
unfolding mark_at
mark_at_comm p m n k b [] = refl
mark_at_comm (suc p) (suc m) n k b (c ∷ d) = ap (c ∷◌) (mark_at_comm p m n k b d)
mark_at_comm (suc p) zero n zero b (c ∷ d) = refl
mark_at_comm (suc p) zero n (suc k) b (c ∷ d) =
    ap (record c { live = b } ∷◌) (mark_at_comm p zero n k b d)
mark_at_comm zero (suc m) zero k b (c ∷ d) = refl
mark_at_comm zero (suc m) (suc n) k b (c ∷ d) =
    ap (record c { live = b } ∷◌) (mark_at_comm zero m n k b d)
mark_at_comm zero zero zero zero b (c ∷ d) = refl
mark_at_comm zero zero zero (suc k) b (c ∷ d) = refl
mark_at_comm zero zero (suc n) zero b (c ∷ d) = refl
mark_at_comm zero zero (suc n) (suc k) b (c ∷ d) =
    ap (record c { live = b } ∷◌) (mark_at_comm zero zero n k b d)
