-- ===== src/InternalDoc/Convert/Walk.antt =====
-- The two loops of `convert_pos` stop at a range that the position lies in.

use collab_mode.Prelude.{
  ℕ, suc, ◌+◌, ◌^◌, ◌≤◌, ◌<◌, ◌≡◌, sym, ap, ◌∙◌, ltb, Bool, true, false, inl, inr, Bool-cases, some,
  List, [], ◌∷◌, ◌++◌, append_assoc, arith, length, length-append, add_u64,
}
use collab_mode.InternalDoc.{Range, Cursor, len, live_len, cursor_pos}
use collab_mode.InternalDoc.Flags.{total, total-around}
use collab_mode.InternalDoc.Convert.{Place, step_forward, step_back, forward}
use collab_mode.InternalDoc.Convert.Measure.{
  size, measure, measure-append, measure-total, measure-le, live_len-le,
}

-- The cursor stands at the beginning of the range `r`.
pub record IsAt (rs before after : List Range) (r : Range) (c : Cursor) : Type 0 where
  pub around : rs ≡ before ++ r ∷ after
  pub internal : c.internal_pos ≡ total before
  pub editor : c.editor_pos ≡ measure true before

-- The position lies in the range of the place, whose cursor stands at its beginning.
pub record Found (rs : List Range) (pos : ℕ) (editor : Bool) (p : Place) : Type 0 where
  pub before : List Range
  pub after : List Range
  pub at : IsAt rs before after p.range p.cursor
  pub index : p.idx ≡ length before
  pub low : measure editor before ≤ pos
  pub high : pos ≤ measure editor before + size editor p.range

pub cursor_pos-IsAt :
    (editor : Bool) {rs before after : List Range} {r : Range} {c : Cursor}
    → IsAt rs before after r c
    → cursor_pos c editor ≡ measure editor before
unfolding cursor_pos
cursor_pos-IsAt true a = a.editor
cursor_pos-IsAt false {before = before} a = a.internal ∙ sym (measure-total before)

total-snoc : (before : List Range) (r : Range) → total (before ++ r ∷ []) ≡ total before + len r
total-snoc before r = total-around before [] r ∙ unfold total in omega arith

pub measure-snoc :
    (editor : Bool) (before : List Range) (r : Range)
    → measure editor (before ++ r ∷ []) ≡ measure editor before + size editor r
measure-snoc editor before r = measure-append editor before (r ∷ []) ∙ unfold measure in omega arith

-- All of the ranges, by their parts.
pub total-IsAt :
    {rs before after : List Range} {r : Range} {c : Cursor}
    → IsAt rs before after r c
    → total rs ≡ total before + len r + total after
total-IsAt {before = before} {after} {r} a = ap total a.around ∙ total-around before after r

module _ (rs before after : List Range) (r next : Range) (idx : ℕ) (c : Cursor) where
  step_forward-IsAt :
      total rs < 2 ^ 64
      → IsAt rs before (next ∷ after) r c
      → IsAt rs (before ++ r ∷ []) after next (step_forward idx r c)
  unfolding step_forward live_len
  step_forward-IsAt bound a =
      let parts = total-IsAt a in
      let le = measure-le before in
      record {
        around = a.around ∙ sym (append_assoc before (r ∷ []) (next ∷ after));
        internal = omega (arith, total-snoc before r);
        editor = ground (arith, measure-snoc true before r);
      }

  pub step_back-IsAt :
      total rs < 2 ^ 64
      → IsAt rs (before ++ r ∷ []) after next c
      → IsAt rs before (next ∷ after) r (step_back idx r c)
  unfolding step_back live_len
  step_back-IsAt bound a =
      let parts = total-IsAt a in
      let le = measure-le before in
      record {
        around = a.around ∙ append_assoc before (r ∷ []) (next ∷ after);
        internal = omega (arith, total-snoc before r);
        editor = ground (arith, measure-snoc true before r, total-snoc before r);
      }

pub size-le : (editor : Bool) (r : Range) → size editor r ≤ len r
size-le true r = live_len-le r
size-le false r = omega arith

pub measure-le_total : (editor : Bool) (rs : List Range) → measure editor rs ≤ total rs
measure-le_total true rs = measure-le rs
measure-le_total false rs = omega (arith, measure-total rs)

-- The test of the loop to the right compares with the end of the range.
module _ (pos : ℕ) (editor : Bool) (rs before after : List Range) (r : Range) (c : Cursor) where
  right_end :
      total rs < 2 ^ 64
      → IsAt rs before after r c
      → add_u64 (cursor_pos c editor) (size editor r) ≡ measure editor before + size editor r
  right_end bound a = omega (
    arith,
    total-IsAt a,
    cursor_pos-IsAt editor a,
    size-le editor r,
    measure-le_total editor before,
  )

-- The loop to the right stops in a range where the position lies.
pub forward-Found :
    (pos : ℕ) (editor : Bool) (rs before after : List Range) (r : Range) (idx : ℕ) (c : Cursor)
    → total rs < 2 ^ 64
    → IsAt rs before after r c
    → idx ≡ length before
    → measure editor before ≤ pos
    → pos ≤ measure editor rs
    → (p : Place) × (forward pos editor after idx r c ≡ some p) × Found rs pos editor p
unfolding forward
forward-Found pos editor rs before [] r idx c bound a i lo hi =
    let end = right_end pos editor rs before [] r c bound a in
    let all : measure editor rs ≡ measure editor before + size editor r =
      ap (measure editor) a.around ∙ measure-snoc editor before r in
    let test : ltb (add_u64 (cursor_pos c editor) (size editor r)) pos ≡ false =
      ground (arith, end, all) in
    (
      record { idx = idx; range = r; cursor = c },
      rw test,
      record {
        before = before;
        after = [];
        at = a;
        index = i;
        low = lo;
        high = omega (arith, all);
      },
    )
forward-Found pos editor rs before (next ∷ after) r idx c bound a i lo hi =
    let end = right_end pos editor rs before (next ∷ after) r c bound a in
    elim (Bool-cases (ltb (add_u64 (cursor_pos c editor) (size editor r)) pos)) [
      | inl on ↦
          let further =
            forward-Found pos editor rs (before ++ r ∷ []) after next (suc idx)
              (step_forward idx r c) bound (step_forward-IsAt rs before after r next idx c bound a)
              (omega (arith, length-append before (r ∷ [])))
              (ground (arith, end, measure-snoc editor before r)) hi in
          (further.0, rw on further.1, further.2)
      | inr off ↦ (
        record { idx = idx; range = r; cursor = c },
        rw off,
        record {
          before = before;
          after = next ∷ after;
          at = a;
          index = i;
          low = lo;
          high = ground (arith, end);
        },
      )
    ]
