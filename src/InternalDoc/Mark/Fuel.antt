-- ===== src/InternalDoc/Mark/Fuel.antt =====
-- The rounds of the loop that marks (`apply_mark_dead` and `apply_mark_live`,
-- collab_mode/src/engine.rs).
use collab_mode.Prelude.{
  ℕ, zero, suc, ◌+◌, ◌++◌, [], ◌∷◌, not, ◌&&◌, sub_u64, if◌then◌else◌, ◌<◌, ◌≤◌, ◌≡◌, refl, ◌==◌,
  Bool, ltb, inl, inr, Bool-cases, Option-cases, Option, none, some, List, length, arith, ◌>>=◌,
}
use collab_mode.InternalDoc.{Range}
use collab_mode.InternalDoc.Iterator.{
  range_len, move_right, extend_affected_range_right, contract_affected_range_right,
}
use collab_mode.InternalDoc.Mark.{
  Marking, Control, stop, go_on, apart, push_wo_dup, mark_prefix, flip_unless_prefix, mark_suffix,
  mark_end, mark_body, advance, mark_round, mark_loop, has_liveness, range_of,
}

-- Where a part of the body returns, the iterator is at the same range.
abbrev Stays : ℕ → Option Marking → Type 0
Stays idx none = Unit
Stays idx (some m) = m.iter.range_idx ≡ idx

abbrev GoesOn : ℕ → Option Control → Type 0
GoesOn idx none = Unit
GoesOn idx (some (stop m)) = Unit
GoesOn idx (some (go_on m)) = m.iter.range_idx ≡ idx

bind_stop : (idx : ℕ) (r : Option Marking) → GoesOn idx (r >>= λ m. some (stop m))
bind_stop idx none = tt
bind_stop idx (some m) = tt

bind-GoesOn : (idx : ℕ) (r : Option Marking) → Stays idx r → GoesOn idx (r >>= λ m. some (go_on m))
bind-GoesOn idx none h = tt
bind-GoesOn idx (some m) h = h

chain :
    (idx : ℕ) (r : Option Marking) (k : Marking → Option Control)
    → Stays idx r
    → ((m : Marking) → m.iter.range_idx ≡ idx → GoesOn idx (k m))
    → GoesOn idx (r >>= k)
chain idx none k h g = tt
chain idx (some m) k h g = g m h

push-Stays : (beg n : ℕ) (m : Marking) → Stays m.iter.range_idx (push_wo_dup beg n m)
unfolding push_wo_dup
push-Stays beg n m = elim (Bool-cases (apart beg n m.flipped_ranges)) [
  | inl e ↦ rw e refl
  | inr e ↦ rw e tt
]

prefix-Stays :
    (target : Bool) (beg end : ℕ) (m : Marking)
    → Stays m.iter.range_idx (mark_prefix target beg end m)
unfolding mark_prefix
prefix-Stays target beg end m = elim (Bool-cases (ltb m.iter.range_beg beg)) [
  | inr e ↦ rw (e, mark_prefix) refl
  | inl e ↦ elim (Bool-cases (has_liveness target m.range)) [
    | inl f ↦ rw (e, mark_prefix) (rw f refl)
    | inr f ↦
        rw (e, mark_prefix)
          (rw f (
            push-Stays _ _ (record m {
              final_ranges =
                  m.final_ranges ++ range_of (not target) (sub_u64 beg m.iter.range_beg) ∷ [];
            })))
  ]
]

flip-Stays :
    (target : Bool) (beg b n : ℕ) (m : Marking)
    → Stays m.iter.range_idx (flip_unless_prefix target beg b n m)
unfolding flip_unless_prefix
flip-Stays target beg b n m =
    elim (Bool-cases (not (has_liveness target m.range) && not (ltb m.iter.range_beg beg))) [
      | inl e ↦ rw e (push-Stays b n m)
      | inr e ↦ rw e refl
    ]

-- What the body does when the part of the range left of the mark is done.
abbrev behind_prefix : Bool → List Range → ℕ → ℕ → Marking → Option Control
behind_prefix target ranges beg end m =
    if ltb end m.iter.range_end
    then (mark_suffix target beg end m >>= λ m. some (stop m))
    else if m.iter.range_end == end
    then (mark_end target ranges beg m >>= λ m. some (stop m))
    else flip_unless_prefix target beg m.iter.range_beg (range_len m.iter) m >>= λ m. some (go_on m)

behind-GoesOn :
    (target : Bool) (ranges : List Range) (beg end : ℕ) (m : Marking)
    → GoesOn m.iter.range_idx (behind_prefix target ranges beg end m)
behind-GoesOn target ranges beg end m = elim (Bool-cases (ltb end m.iter.range_end)) [
  | inl e ↦ rw e (bind_stop m.iter.range_idx (mark_suffix target beg end m))
  | inr e ↦ elim (Bool-cases (m.iter.range_end == end)) [
    | inl f ↦ rw e (rw f (bind_stop m.iter.range_idx (mark_end target ranges beg m)))
    | inr f ↦ rw e (rw f (bind-GoesOn m.iter.range_idx _ (flip-Stays target beg _ _ m)))
  ]
]

body-GoesOn :
    (target : Bool) (ranges : List Range) (beg end : ℕ) (m : Marking)
    → GoesOn m.iter.range_idx (mark_body target ranges beg end m)
unfolding mark_body contract_affected_range_right
body-GoesOn target ranges beg end m = elim (Bool-cases (ltb m.iter.range_end beg)) [
  | inl e ↦ rw (e, mark_body) refl
  | inr e ↦ elim (Bool-cases (m.iter.range_end == beg)) [
    | inl f ↦ elim (Bool-cases (has_liveness target m.range)) [
      | inl g ↦ rw (e, mark_body) (rw (f, mark_body) (rw g refl))
      | inr g ↦ rw (e, mark_body) (rw (f, mark_body) (rw g refl))
    ]
    | inr f ↦
        rw (e, mark_body)
          (rw (f, mark_body)
            (chain m.iter.range_idx (mark_prefix target beg end m)
              (behind_prefix target ranges beg end) (prefix-Stays target beg end m)
              (λ m' h. rw⁻¹ h (behind-GoesOn target ranges beg end m'))))
  ]
]

-- The loop without fuel: it stops in a round, it panics in one, or it goes on to another. `none` is
-- a panic.
pub data Loop (target : Bool) (ranges : List Range) (beg end : ℕ)
    : Marking → Option Marking → Type 0 where
  stops :
      (m m' : Marking)
      → mark_round target ranges beg end m ≡ some (stop m')
      → Loop target ranges beg end m (some m')
  panics :
      (m : Marking) → mark_round target ranges beg end m ≡ none → Loop target ranges beg end m none
  goes_on :
      (m m' : Marking) (r : Option Marking)
      → mark_round target ranges beg end m ≡ some (go_on m')
      → Loop target ranges beg end m' r
      → Loop target ranges beg end m r

advance_moves :
    (ranges : List Range) (m m' : Marking)
    → advance ranges (go_on m) ≡ some (go_on m')
    → (m'.iter.range_idx ≡ m.iter.range_idx + 1) × (m'.iter.range_idx < length ranges)
unfolding advance move_right extend_affected_range_right
advance_moves ranges m m' e = ground arith

after_body :
    (ranges : List Range) (idx : ℕ) (r : Option Control) (m' : Marking)
    → GoesOn idx r
    → (r >>= λ control. advance ranges control) ≡ some (go_on m')
    → (m'.iter.range_idx ≡ idx + 1) × (m'.iter.range_idx < length ranges)
after_body ranges idx none m' h e = absurd (cc)
after_body ranges idx (some (stop m)) m' h e = unfold advance in absurd (cc)
after_body ranges idx (some (go_on m)) m' h e = rw⁻¹ h (advance_moves ranges m m' e)

-- A round that goes on moves one range to the right.
round_moves :
    (target : Bool) (ranges : List Range) (beg end : ℕ) (m m' : Marking)
    → mark_round target ranges beg end m ≡ some (go_on m')
    → (m'.iter.range_idx ≡ m.iter.range_idx + 1) × (m'.iter.range_idx < length ranges)
unfolding mark_round
round_moves target ranges beg end m m' e =
    after_body ranges m.iter.range_idx (mark_body target ranges beg end m) m'
      (body-GoesOn target ranges beg end m) e

-- With fuel for the ranges from the current one on the loop does what it does without fuel, so that
-- it ends, by a panic or with a result, and `none` is a panic: each round moves one range to the
-- right.
pub mark_loop-Loop :
    (target : Bool) (ranges : List Range) (beg end fuel : ℕ) (m : Marking)
    → m.iter.range_idx < length ranges
    → length ranges ≤ m.iter.range_idx + fuel
    → Loop target ranges beg end m (mark_loop target ranges beg end fuel m)
unfolding mark_loop
mark_loop-Loop target ranges beg end zero m within enough = absurd (omega arith)
mark_loop-Loop target ranges beg end (suc fuel) m within enough =
    elim (Option-cases (mark_round target ranges beg end m)) [
      | inl e ↦ rw e (panics m e)
      | inr (stop m', e) ↦ rw e (stops m m' e)
      | inr (go_on m', e) ↦
          let (moves, inside) = round_moves target ranges beg end m m' e in
          rw e (
            goes_on m m' _ e
              (mark_loop-Loop target ranges beg end fuel m' inside (omega (arith, moves))))
    ]
