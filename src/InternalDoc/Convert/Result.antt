-- ===== src/InternalDoc/Convert/Result.antt =====
-- What `convert_pos` as a whole returns.
use mathlib.Core.Path.{subst}
use collab_mode.Prelude.{
  ℕ, suc, ◌^◌, ◌≤◌, ◌<◌, ◌≡◌, ◌≢◌, ◌⊎◌, refl, sym, ap, ◌∙◌, ◌==◌, ltb, Bool, true, false, inl, inr,
  Bool-cases, some, List, [], ◌∷◌, arith, length, get_elem?, get_elem?-append_cons, drop,
  drop-append_second, if◌then◌else◌, ◌>>=◌,
}
use collab_mode.InternalDoc.{Range, Cursor, cursor_pos, origin}
use collab_mode.InternalDoc.Flags.{total}
use collab_mode.InternalDoc.Convert.{forward, backward, position_in, unwrap_or_zero, convert_pos}
use collab_mode.InternalDoc.Convert.Measure.{measure}
use collab_mode.InternalDoc.Convert.Walk.{IsAt, cursor_pos-IsAt, forward-Found}
use collab_mode.InternalDoc.Convert.Back.{backward-Found}
use collab_mode.InternalDoc.Convert.Places.{
  Points, Converted, settled, Found-Converted, at_cursor-Converted,
}

-- A cursor that was just made, or one that points to a range.
abbrev pub Usable : List Range → Cursor → Type 0
Usable rs c = (c ≡ origin) ⊎ Points rs c

abbrev start_idx : Cursor → ℕ
start_idx c = unwrap_or_zero c.range_idx

abbrev start_cursor : Cursor → Cursor
start_cursor c = if start_idx c == 0 then record c { editor_pos = 0; internal_pos = 0 } else c

-- Where the loops begin.
record Start (rs : List Range) (c : Cursor) : Type 0 where
  before : List Range
  after : List Range
  range : Range
  at : IsAt rs before after range (start_cursor c)
  index : start_idx c ≡ length before
  here : get_elem? rs (start_idx c) ≡ some range
  behind : drop (suc (start_idx c)) rs ≡ after

start-IsAt :
    (rs before after : List Range) (r : Range) (c : Cursor)
    → IsAt rs before after r c
    → start_idx c ≡ length before
    → IsAt rs before after r (start_cursor c)
unfolding measure total
start-IsAt rs [] after r c a i =
    let reset : (start_idx c == 0) ≡ true = ground arith in
    rw reset (record { around = a.around; internal = refl; editor = refl })
start-IsAt rs (b ∷ bs) after r c a i =
    let kept : (start_idx c == 0) ≡ false = ground arith in rw kept a

Points-Start : (rs : List Range) (c : Cursor) → Points rs c → Start rs c
Points-Start rs c p =
    let i : start_idx c ≡ length p.before = ap unwrap_or_zero p.index in
    record {
      before = p.before;
      after = p.after;
      range = p.range;
      at = start-IsAt rs p.before p.after p.range c p.at i;
      index = i;
      here =
          ap (λ x. get_elem? x (start_idx c)) p.at.around
          ∙ rw i (get_elem?-append_cons p.before p.after p.range);
      behind =
          ap (λ x. drop (suc (start_idx c)) x) p.at.around
          ∙ rw i (drop-append_second p.before p.after p.range);
    }

Usable-Start :
    (r : Range) (rest : List Range) (c : Cursor) → Usable (r ∷ rest) c → Start (r ∷ rest) c
unfolding measure total
Usable-Start r rest c (inl e) = subst (Start (r ∷ rest)) (sym e) (record {
  before = [];
  after = rest;
  range = r;
  at = record { around = refl; internal = refl; editor = refl };
  index = refl;
  here = refl;
  behind = refl;
})
Usable-Start r rest c (inr p) = Points-Start (r ∷ rest) c p

search-Converted :
    (rs : List Range) (pos : ℕ) (c : Cursor) (editor : Bool)
    → total rs < 2 ^ 64
    → pos ≤ measure editor rs
    → (s : Start rs c)
    → Converted rs pos editor (
        (if ltb (cursor_pos (start_cursor c) editor) pos
          then forward pos editor
              (drop (suc (start_idx c)) rs)
              (start_idx c)
              s.range
              (start_cursor c)
          else backward pos editor rs (start_idx c) s.range (start_cursor c))
        >>= λ place. some (position_in pos editor place, settled place))
search-Converted rs pos c editor bound hi s =
    let at = cursor_pos-IsAt editor s.at in
    elim (Bool-cases (ltb (cursor_pos (start_cursor c) editor) pos)) [
      | inl on ↦
          let (place, e, found) =
            forward-Found pos editor rs s.before s.after s.range (start_idx c) (start_cursor c)
              bound s.at s.index (ground (arith, at)) hi in
          rw on (rw s.behind (rw e (Found-Converted rs pos editor place bound found)))
      | inr off ↦
          let (place, e, found) =
            backward-Found pos editor rs s.before s.after s.range (start_idx c) (start_cursor c)
              bound s.at s.index (ground (arith, at)) in
          rw off (rw e (Found-Converted rs pos editor place bound found))
    ]

first_points :
    (r : Range) (rest : List Range) → Points (r ∷ rest) (record origin { range_idx = some 0 })
unfolding measure total
first_points r rest = record {
  before = [];
  after = rest;
  range = r;
  at = record { around = refl; internal = refl; editor = refl };
  index = refl;
}

at_zero-Converted :
    (r : Range) (rest : List Range) (pos : ℕ) (editor : Bool)
    → pos ≡ 0
    → Converted (r ∷ rest) pos editor (some (0, record origin { range_idx = some 0 }))
unfolding cursor_pos
at_zero-Converted r rest pos true e =
    at_cursor-Converted (r ∷ rest) pos true (record origin { range_idx = some 0 })
      (first_points r rest) e
at_zero-Converted r rest pos false e =
    at_cursor-Converted (r ∷ rest) pos false (record origin { range_idx = some 0 })
      (first_points r rest) e

-- A cursor that was just made stands only at 0.
nonzero_points :
    (rs : List Range) (pos : ℕ) (c : Cursor) (editor : Bool)
    → Usable rs c
    → pos ≢ 0
    → pos ≡ cursor_pos c editor
    → Points rs c
unfolding cursor_pos
nonzero_points rs pos c true (inl e) n h = absurd (n (h ∙ ap (λ x. x.editor_pos) e))
nonzero_points rs pos c false (inl e) n h = absurd (n (h ∙ ap (λ x. x.internal_pos) e))
nonzero_points rs pos c editor (inr p) n h = p

-- In a document with ranges, whose lengths add up within 64 bits, `convert_pos` neither panics nor
-- runs past the ranges for a position that is at most the document's length and a cursor that was
-- just made or points to a range. It returns the position in the other document: as many live
-- characters stand before the internal position as the editor position says. The cursor it leaves
-- points to a range that the internal position lies in, with both of its positions right.
pub convert_pos-Converted :
    (r : Range) (rest : List Range) (pos : ℕ) (c : Cursor) (editor : Bool)
    → total (r ∷ rest) < 2 ^ 64
    → Usable (r ∷ rest) c
    → pos ≤ measure editor (r ∷ rest)
    → Converted (r ∷ rest) pos editor (convert_pos (r ∷ rest) pos c editor)
unfolding convert_pos
convert_pos-Converted r rest pos c editor bound u hi =
    let some_ranges : ltb 0 (length (r ∷ rest)) ≡ true = ground arith in
    let not_empty : (length (r ∷ rest) == 0) ≡ false = ground arith in
    elim (Bool-cases (pos == 0)) [
      | inl zero_pos ↦
          rw zero_pos (rw some_ranges (at_zero-Converted r rest pos editor (ground arith)))
      | inr positive ↦ elim (Bool-cases (pos == cursor_pos c editor)) [
        | inl same ↦
            let e : pos ≡ cursor_pos c editor = ground arith in
            let p = nonzero_points (r ∷ rest) pos c editor u (ground arith) e in
            rw positive (rw same (at_cursor-Converted (r ∷ rest) pos editor c p e))
        | inr other ↦
            let s = Usable-Start r rest c u in
            rw positive (
              rw other
                (rw not_empty (rw s.here (search-Converted (r ∷ rest) pos c editor bound hi s))))
      ]
    ]
