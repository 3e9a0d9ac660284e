-- ===== src/InternalDoc/Flags.antt =====
-- What the ranges stand for: the liveness of each character of the internal document.
use collab_mode.Prelude.{
  ℕ, zero, suc, ◌+◌, ◌≤◌, ◌<◌, ◌≡◌, ◌≢◌, refl, sym, ap, ◌∙◌, Bool, true, false, Option, some, List,
  [], ◌∷◌, ◌++◌, map, append_assoc, arith, Text, length, length-append, length-replicate, replicate,
}
use collab_mode.Document.{Document, cells, insert_at}
use collab_mode.InternalDoc.{Range, live, dead, is_live, len}

unfoldable pub flags : List Range → List Bool
flags [] = []
flags (live n ∷ rs) = replicate n true ++ flags rs
flags (dead n ∷ rs) = replicate n false ++ flags rs

abbrev pub flags_of : Range → List Bool
flags_of (live n) = replicate n true
flags_of (dead n) = replicate n false

pub flags-cons : (r : Range) (rs : List Range) → flags (r ∷ rs) ≡ flags_of r ++ flags rs
unfolding flags
flags-cons (live n) rs = refl
flags-cons (dead n) rs = refl

pub flags-append : (rs ss : List Range) → flags (rs ++ ss) ≡ flags rs ++ flags ss
unfolding flags
flags-append [] ss = refl
flags-append (live n ∷ rs) ss =
    ap (replicate n true ++◌) (flags-append rs ss) ∙ sym (append_assoc (replicate n true) _ _)
flags-append (dead n ∷ rs) ss =
    ap (replicate n false ++◌) (flags-append rs ss) ∙ sym (append_assoc (replicate n false) _ _)

-- The number of characters.
unfoldable pub total : List Range → ℕ
unfolding len
total [] = 0
total (r ∷ rs) = len r + total rs

pub total-append : (rs ss : List Range) → total (rs ++ ss) ≡ total rs + total ss
unfolding total
total-append [] ss = omega arith
total-append (r ∷ rs) ss = omega (arith, total-append rs ss)

pub total-around :
    (before after : List Range) (r : Range)
    → total (before ++ r ∷ after) ≡ total before + len r + total after
total-around before after r = total-append before (r ∷ after) ∙ unfold total in omega arith

pub length-flags : (rs : List Range) → length (flags rs) ≡ total rs
unfolding flags total
length-flags [] = refl
length-flags (live n ∷ rs) =
    omega
      (arith, length-append (replicate n true) (flags rs), length-replicate n true, length-flags rs)
length-flags (dead n ∷ rs) =
    omega (
      arith,
      length-append (replicate n false) (flags rs),
      length-replicate n false,
      length-flags rs,
    )

-- `n` live characters inserted at a position.
unfoldable pub insert_flags : ℕ → ℕ → List Bool → List Bool
insert_flags zero n fs = replicate n true ++ fs
insert_flags (suc p) n [] = replicate n true
insert_flags (suc p) n (f ∷ fs) = f ∷ insert_flags p n fs

pub insert_flags-append :
    (xs ys : List Bool) (q k n : ℕ)
    → q ≡ length xs + k
    → insert_flags q n (xs ++ ys) ≡ xs ++ insert_flags k n ys
unfolding insert_flags
insert_flags-append [] ys q k n e = let e' : q ≡ k = omega arith in ap (λ i. insert_flags i n ys) e'
insert_flags-append (x ∷ xs) ys zero k n e = absurd (omega arith)
insert_flags-append (x ∷ xs) ys (suc q) k n e =
    ap (x ∷◌) (insert_flags-append xs ys q k n (omega arith))

replicate-append :
    (n k : ℕ) (b : Bool) (ys : List Bool)
    → replicate n b ++ (replicate k b ++ ys) ≡ replicate (n + k) b ++ ys
replicate-append zero k b ys = let e : k ≡ 0 + k = omega arith in ap (λ i. replicate i b ++ ys) e
replicate-append (suc n) k b ys =
    let e : suc (n + k) ≡ suc n + k = omega arith in
    ap (b ∷◌) (replicate-append n k b ys) ∙ ap (λ i. replicate i b ++ ys) e

-- An insertion within live characters, or at their end, makes them more.
pub insert_flags-live :
    (k n m : ℕ) (ys : List Bool)
    → k ≤ m
    → insert_flags k n (replicate m true ++ ys) ≡ replicate (m + n) true ++ ys
unfolding insert_flags
insert_flags-live zero n m ys h =
    let e : n + m ≡ m + n = omega arith in
    replicate-append n m true ys ∙ ap (λ i. replicate i true ++ ys) e
insert_flags-live (suc k) n zero ys h = absurd (omega arith)
insert_flags-live (suc k) n (suc m) ys h =
    let e : suc (m + n) ≡ suc m + n = omega arith in
    ap (true ∷◌) (insert_flags-live k n m ys (omega arith)) ∙ ap (λ i. replicate i true ++ ys) e

-- An insertion within dead characters cuts them in two.
pub insert_flags-dead :
    (k n m k' : ℕ) (ys : List Bool)
    → m ≡ k + k'
    → insert_flags k n (replicate m false ++ ys)
      ≡ replicate k false ++ (replicate n true ++ (replicate k' false ++ ys))
unfolding insert_flags
insert_flags-dead zero n m k' ys e =
    let e' : m ≡ k' = omega arith in ap (λ i. replicate n true ++ (replicate i false ++ ys)) e'
insert_flags-dead (suc k) n zero k' ys e = absurd (omega arith)
insert_flags-dead (suc k) n (suc m) k' ys e =
    ap (false ∷◌) (insert_flags-dead k n m k' ys (omega arith))

-- The liveness of the characters of a document.
abbrev pub liveness : Document → List Bool
liveness d = map (λ c. c.live) d

liveness-cells :
    (t : Text) (d : Document) → liveness (cells t ++ d) ≡ replicate (length t) true ++ liveness d
liveness-cells [] d = refl
liveness-cells (c ∷ t) d = ap (true ∷◌) (liveness-cells t d)

liveness-only_cells : (t : Text) → liveness (cells t) ≡ replicate (length t) true
liveness-only_cells [] = refl
liveness-only_cells (c ∷ t) = ap (true ∷◌) (liveness-only_cells t)

-- The flags follow an insertion of a text into a document.
pub liveness-insert_at :
    (p : ℕ) (t : Text) (d : Document)
    → liveness (insert_at p t d) ≡ insert_flags p (length t) (liveness d)
unfolding insert_at insert_flags
liveness-insert_at zero t d = liveness-cells t d
liveness-insert_at (suc p) t [] = liveness-only_cells t
liveness-insert_at (suc p) t (c ∷ d) = ap (c.live ∷◌) (liveness-insert_at p t d)

-- No range is empty, and neighbours differ in liveness; `before` is the liveness on the left.
abbrev pub Coalesced : Option Bool → List Range → Type 0
Coalesced before [] = Unit
Coalesced before (r ∷ rs) =
    (0 < len r) × (before ≢ some (is_live r)) × Coalesced (some (is_live r)) rs

abbrev pub last_live : Option Bool → List Range → Option Bool
last_live b [] = b
last_live b (r ∷ rs) = last_live (some (is_live r)) rs

pub Coalesced-split :
    (b : Option Bool) (rs ss : List Range)
    → Coalesced b (rs ++ ss)
    → Coalesced b rs × Coalesced (last_live b rs) ss
Coalesced-split b [] ss h = (tt, h)
Coalesced-split b (r ∷ rs) ss h =
    let (left, right) = Coalesced-split (some (is_live r)) rs ss h.2 in ((h.0, h.1, left), right)

pub Coalesced-join :
    (b : Option Bool) (rs ss : List Range)
    → Coalesced b rs
    → Coalesced (last_live b rs) ss
    → Coalesced b (rs ++ ss)
Coalesced-join b [] ss h k = k
Coalesced-join b (r ∷ rs) ss h k = (h.0, h.1, Coalesced-join (some (is_live r)) rs ss h.2 k)

pub last_live-append :
    (b : Option Bool) (rs ss : List Range) → last_live b (rs ++ ss) ≡ last_live (last_live b rs) ss
last_live-append b [] ss = refl
last_live-append b (r ∷ rs) ss = last_live-append (some (is_live r)) rs ss
