-- ===== src/InternalDoc/Convert/Back.antt =====
-- The loop of `convert_pos` to the left.
use collab_mode.Prelude.{
  ℕ, zero, suc, ◌+◌, ◌^◌, ◌≤◌, ◌<◌, ◌≡◌, refl, ap, ◌∙◌, Bool, true, false, inl, inr, Bool-cases,
  some, List, [], ◌∷◌, ◌++◌, arith, length, length-append, get_elem?, get_elem?-append_cons,
  snoc-cases,
}
use collab_mode.InternalDoc.{Range, Cursor, cursor_pos}
use collab_mode.InternalDoc.Flags.{total}
use collab_mode.InternalDoc.Convert.{Place, step_back, goes_back, backward}
use collab_mode.InternalDoc.Convert.Measure.{size, measure}
use collab_mode.InternalDoc.Convert.Walk.{
  IsAt, Found, cursor_pos-IsAt, step_back-IsAt, measure-snoc,
}

module _ (pos : ℕ) (editor : Bool) (idx : ℕ) (r : Range) (c : Cursor) where
  goes_back-le : goes_back pos editor idx r c ≡ true → pos ≤ cursor_pos c editor
  unfolding goes_back
  goes_back-le h = ground arith

  stays-le : goes_back pos editor idx r c ≡ false → cursor_pos c editor ≤ pos
  unfolding goes_back
  stays-le h = ground arith

stays_at_first :
    (pos : ℕ) (editor : Bool) (r : Range) (c : Cursor)
    → cursor_pos c editor ≡ 0
    → goes_back pos editor 0 r c ≡ false
unfolding goes_back
stays_at_first pos editor r c h = ground arith

-- Where the loop stops at once.
stays-Found :
    (pos : ℕ) (editor : Bool) (rs before after : List Range) (r : Range) (idx : ℕ) (c : Cursor)
    → IsAt rs before after r c
    → idx ≡ length before
    → pos ≤ measure editor before + size editor r
    → goes_back pos editor idx r c ≡ false
    → Found rs pos editor (record { idx = idx; range = r; cursor = c })
stays-Found pos editor rs before after r idx c a i hi stays = record {
  before = before;
  after = after;
  at = a;
  index = i;
  low = omega (arith, stays-le pos editor idx r c stays, cursor_pos-IsAt editor a);
  high = hi;
}

previous :
    (rs ys after : List Range) (y : Range) (idx : ℕ)
    → rs ≡ ys ++ y ∷ after
    → idx ≡ length ys
    → get_elem? rs idx ≡ some y
previous rs ys after y idx e i =
    ap (λ x. get_elem? x idx) e ∙ rw i (get_elem?-append_cons ys after y)

-- The loop to the left stops in a range where the position lies.
pub backward-Found :
    (pos : ℕ) (editor : Bool) (rs before after : List Range) (r : Range) (idx : ℕ) (c : Cursor)
    → total rs < 2 ^ 64
    → IsAt rs before after r c
    → idx ≡ length before
    → pos ≤ measure editor before + size editor r
    → (p : Place) × (backward pos editor rs idx r c ≡ some p) × Found rs pos editor p
unfolding backward
backward-Found pos editor rs [] after r zero c bound a i hi =
    let at_zero : cursor_pos c editor ≡ 0 = cursor_pos-IsAt editor a ∙ unfold measure in refl in
    let stays = stays_at_first pos editor r c at_zero in
    (
      record { idx = zero; range = r; cursor = c },
      rw stays,
      stays-Found pos editor rs [] after r zero c a i hi stays,
    )
backward-Found pos editor rs (b ∷ bs) after r zero c bound a i hi = absurd (omega arith)
backward-Found pos editor rs [] after r (suc idx) c bound a i hi = absurd (omega arith)
backward-Found pos editor rs (b ∷ bs) after r (suc idx) c bound a i hi =
    elim (Bool-cases (goes_back pos editor (suc idx) r c)) [
      | inl back ↦
          let (ys, y, e) = snoc-cases b bs in
          let a' = step_back-IsAt rs ys after y r idx c bound (rw e at a) in
          let i' : idx ≡ length ys = omega (arith, ap length e, length-append ys (y ∷ [])) in
          let le = goes_back-le pos editor (suc idx) r c back in
          let further =
            backward-Found pos editor rs ys (r ∷ after) y idx (step_back idx y c) bound a' i' (
              omega (
                arith,
                cursor_pos-IsAt editor a,
                ap (measure editor) e,
                measure-snoc editor ys y,
              )) in
          (
            further.0,
            rw back (rw (previous rs ys (r ∷ after) y idx a'.around i') further.1),
            further.2,
          )
      | inr stays ↦ (
        record { idx = suc idx; range = r; cursor = c },
        rw stays,
        stays-Found pos editor rs (b ∷ bs) after r (suc idx) c a i hi stays,
      )
    ]
