-- ===== src/InternalDoc/Convert/Measure.antt =====
-- Positions measured in ranges: internal ones count every character, editor ones the live ones.
use collab_mode.Prelude.{
  ℕ, zero, suc, ◌+◌, ◌≤◌, ◌≡◌, refl, sym, ap, ◌∙◌, Bool, true, false, List, [], ◌∷◌, ◌++◌, arith,
  replicate, if◌then◌else◌,
}
use collab_mode.InternalDoc.{Range, live, dead, is_live, len, live_len}
use collab_mode.InternalDoc.Flags.{flags, total}

-- The length of a range in the document that the positions are of.
abbrev pub size : Bool → Range → ℕ
size editor r = if editor then live_len r else len r

unfoldable pub measure : Bool → List Range → ℕ
measure editor [] = 0
measure editor (r ∷ rs) = size editor r + measure editor rs

pub measure-append :
    (editor : Bool) (rs ss : List Range)
    → measure editor (rs ++ ss) ≡ measure editor rs + measure editor ss
unfolding measure
measure-append editor [] ss = omega arith
measure-append editor (r ∷ rs) ss = omega (arith, measure-append editor rs ss)

pub measure-total : (rs : List Range) → measure false rs ≡ total rs
unfolding measure total
measure-total [] = refl
measure-total (r ∷ rs) = ap (len r +◌) (measure-total rs)

pub live_len-le : (r : Range) → live_len r ≤ len r
unfolding live_len
live_len-le (live n) = omega arith
live_len-le (dead n) = omega arith

pub measure-le : (rs : List Range) → measure true rs ≤ total rs
unfolding measure total
measure-le [] = omega arith
measure-le (r ∷ rs) = omega (arith, measure-le rs, live_len-le r)

-- The number of live characters among the first `n`.
unfoldable pub live_before : ℕ → List Bool → ℕ
live_before zero fs = 0
live_before (suc n) [] = 0
live_before (suc n) (true ∷ fs) = suc (live_before n fs)
live_before (suc n) (false ∷ fs) = live_before n fs

live_before-live :
    (k n m : ℕ) (ys : List Bool) → k ≤ n → m ≡ k → live_before k (replicate n true ++ ys) ≡ m
unfolding live_before
live_before-live zero n m ys h e = sym e
live_before-live (suc k) zero m ys h e = absurd (omega arith)
live_before-live (suc k) (suc n) m ys h e =
    ap suc (live_before-live k n k ys (omega arith) refl) ∙ sym e

live_before-dead : (k n : ℕ) (ys : List Bool) → k ≤ n → live_before k (replicate n false ++ ys) ≡ 0
unfolding live_before
live_before-dead zero n ys h = refl
live_before-dead (suc k) zero ys h = absurd (omega arith)
live_before-dead (suc k) (suc n) ys h = live_before-dead k n ys (omega arith)

-- Past a whole range.
live_before-skip_live :
    (n k q : ℕ) (ys : List Bool)
    → q ≡ n + k
    → live_before q (replicate n true ++ ys) ≡ n + live_before k ys
unfolding live_before
live_before-skip_live zero k q ys e =
    let e' : q ≡ k = omega arith in ap (λ i. live_before i ys) e' ∙ omega arith
live_before-skip_live (suc n) k zero ys e = absurd (omega arith)
live_before-skip_live (suc n) k (suc q) ys e =
    let ih = live_before-skip_live n k q ys (omega arith) in omega (arith, ih)

live_before-skip_dead :
    (n k q : ℕ) (ys : List Bool)
    → q ≡ n + k
    → live_before q (replicate n false ++ ys) ≡ live_before k ys
unfolding live_before
live_before-skip_dead zero k q ys e = let e' : q ≡ k = omega arith in ap (λ i. live_before i ys) e'
live_before-skip_dead (suc n) k zero ys e = absurd (omega arith)
live_before-skip_dead (suc n) k (suc q) ys e = live_before-skip_dead n k q ys (omega arith)

pub live_before-skip :
    (before rs : List Range) (k q : ℕ)
    → q ≡ total before + k
    → live_before q (flags (before ++ rs)) ≡ measure true before + live_before k (flags rs)
unfolding flags total measure len live_len is_live
live_before-skip [] rs k q e =
    let e' : q ≡ k = omega arith in ap (λ i. live_before i (flags rs)) e' ∙ omega arith
live_before-skip (live n ∷ before) rs k q e = omega (
  arith,
  live_before-skip_live n (total before + k) q (flags (before ++ rs)) (omega arith),
  live_before-skip before rs k (total before + k) refl,
)
live_before-skip (dead n ∷ before) rs k q e = omega (
  arith,
  live_before-skip_dead n (total before + k) q (flags (before ++ rs)) (omega arith),
  live_before-skip before rs k (total before + k) refl,
)

-- How many live characters stand before a position in a range.
pub live_before-in_range :
    (before after : List Range) (r : Range) (q k : ℕ)
    → q ≡ total before + k
    → k ≤ len r
    → live_before q (flags (before ++ r ∷ after))
      ≡ measure true before + (if is_live r then k else 0)
unfolding is_live len flags
live_before-in_range before after (live n) q k e h =
    live_before-skip before (live n ∷ after) k q e
    ∙ ap (measure true before +◌) (live_before-live k n k (flags after) h refl)
live_before-in_range before after (dead n) q k e h =
    live_before-skip before (dead n ∷ after) k q e
    ∙ ap (measure true before +◌) (live_before-dead k n (flags after) h)
