-- ===== src/InternalDoc/Cursors.antt =====
-- The cursors of a document pass `check_cursor_positions`.
use collab_mode.Prelude.{
  ℕ, ◌+◌, ◌^◌, ◌≤◌, ◌<◌, ◌≡◌, inl, inr, refl, ◌==◌, Bool, true, false, Bool-cases, Option, none,
  some, List, [], ◌∷◌, ◌++◌, arith, add_u64,
}
use collab_mode.InternalDoc.{
  Range, Cursor, InternalDoc, len, live_len, is_live, lookup, put, check_cursor,
  check_cursor_positions,
}
use collab_mode.InternalDoc.Flags.{total, Coalesced}
use collab_mode.InternalDoc.Convert.Measure.{measure, measure-le, live_len-le}
use collab_mode.InternalDoc.Convert.Walk.{total-IsAt}
use collab_mode.InternalDoc.Convert.Places.{Points}
use collab_mode.InternalDoc.Convert.Result.{Usable}
use collab_mode.InternalDoc.Insert.Cursors.{Valid}
use collab_mode.InternalDoc.Edits.{finish}

pub lookup-Usable :
    (s : ℕ) (rs : List Range) (cs : List (ℕ × Cursor)) (c : Cursor)
    → Valid rs cs
    → lookup s cs ≡ some c
    → Usable rs c
unfolding lookup
lookup-Usable s rs [] c v e = absurd (cc)
lookup-Usable s rs ((s', c') ∷ cs) c (u, v) e = elim (Bool-cases (s == s')) [
  | inl same ↦ let found : some c' ≡ some c = rw same at e in let is_c : c' ≡ c = cc in rw⁻¹ is_c u
  | inr other ↦
      let further : lookup s cs ≡ some c = rw other at e in lookup-Usable s rs cs c v further
]

pub put-Valid :
    (s : ℕ) (rs : List Range) (c : Cursor) (cs : List (ℕ × Cursor))
    → Valid rs cs
    → Usable rs c
    → Valid rs (put s c cs)
unfolding put
put-Valid s rs c [] v u = (u, tt)
put-Valid s rs c ((s', c') ∷ cs) (u', v) u = elim (Bool-cases (s == s')) [
  | inl same ↦ rw same (u, v)
  | inr other ↦ rw other (u', put-Valid s rs c cs v u)
]

-- The walk over the ranges meets the cursor's range with both positions right, since no range in
-- front of it is empty.
check_cursor-passes :
    (front back : List Range) (r : Range) (c : Cursor) (b : Option Bool) (e i : ℕ)
    → Coalesced b (front ++ r ∷ back)
    → c.internal_pos ≡ i + total front
    → c.editor_pos ≡ e + measure true front
    → i + total front < 2 ^ 64
    → e ≤ i
    → check_cursor c e i (front ++ r ∷ back) ≡ true
unfolding check_cursor total measure
check_cursor-passes [] back r c b e i co at_i at_e bound le =
    let here : (i == c.internal_pos) ≡ true = ground arith in
    let there : (e == c.editor_pos) ≡ true = ground arith in rw here there
check_cursor-passes (f ∷ front) back r c b e i co at_i at_e bound le =
    let further : (i == c.internal_pos) ≡ false = ground (arith, co.0) in
    let small = live_len-le f in
    rw further (
      check_cursor-passes front back r c (some (is_live f)) (add_u64 e (live_len f))
        (add_u64 i (len f)) co.2 (omega arith) (omega (arith, measure-le front)) (omega arith)
        (omega arith))

Points-passes :
    (rs : List Range) (c : Cursor)
    → Coalesced none rs
    → total rs < 2 ^ 64
    → Points rs c
    → check_cursor c 0 0 rs ≡ true
Points-passes rs c co bound p =
    let parts = total-IsAt p.at in
    rw p.at.around (
      check_cursor-passes p.before p.after p.range c none 0 0 (rw p.at.around at co)
        (omega (arith, p.at.internal)) (omega (arith, p.at.editor)) (omega arith) (omega arith))

check_cursor_positions-Valid :
    (rs : List Range) (cs : List (ℕ × Cursor))
    → Coalesced none rs
    → total rs < 2 ^ 64
    → Valid rs cs
    → check_cursor_positions rs cs ≡ true
unfolding check_cursor_positions
check_cursor_positions-Valid rs [] co bound v = refl
check_cursor_positions-Valid rs ((s, c) ∷ cs) co bound (inl fresh, v) =
    rw fresh (check_cursor_positions-Valid rs cs co bound v)
check_cursor_positions-Valid rs ((s, c) ∷ cs) co bound (inr p, v) =
    rw p.index (rw (Points-passes rs c co bound p) (check_cursor_positions-Valid rs cs co bound v))

-- No cursor is found to be wrong.
pub finish-Valid :
    (s : ℕ) (c : Cursor) (d : InternalDoc)
    → Coalesced none d.ranges
    → total d.ranges < 2 ^ 64
    → Valid d.ranges d.cursors
    → Usable d.ranges c
    → finish s c d ≡ some (record d { cursors = put s c d.cursors })
unfolding finish
finish-Valid s c d co bound v u = rw (
    check_cursor_positions-Valid d.ranges (put s c d.cursors) co bound
      (put-Valid s d.ranges c d.cursors v u))
