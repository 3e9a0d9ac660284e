-- ===== src/InternalDoc/Convert/Places.antt =====
-- What `convert_pos` returns for the range that its loops stop at.

use collab_mode.Prelude.{
  ℕ, ◌+◌, ◌-◌, ◌^◌, ◌≤◌, ◌<◌, ◌≡◌, refl, sym, ap, ◌∙◌, Bool, true, false, not, Option, some, List,
  arith, length, if◌then◌else◌,
}
use collab_mode.InternalDoc.{Range, live, dead, Cursor, is_live, len, live_len, cursor_pos}
use collab_mode.InternalDoc.Flags.{flags, total}
use collab_mode.InternalDoc.Convert.{Place, position_in}
use collab_mode.InternalDoc.Convert.Measure.{
  measure, measure-total, measure-le, live_before, live_before-in_range,
}
use collab_mode.InternalDoc.Convert.Walk.{IsAt, Found, size-le, total-IsAt}

-- The cursor points to the range `r`.
pub record Points (rs : List Range) (c : Cursor) : Type 0 where
  pub before : List Range
  pub after : List Range
  pub range : Range
  pub at : IsAt rs before after range c
  pub index : c.range_idx ≡ some (length before)

-- The call returns the position in the other document, where as many live characters stand before
-- the internal position as the editor position says, and a cursor that points to a range which the
-- internal position lies in.
pub record Converted (rs : List Range) (pos : ℕ) (editor : Bool) (result : Option (ℕ × Cursor))
    : Type 0 where
  pub internal_position : ℕ
  pub editor_position : ℕ
  pub cursor : Cursor
  pub given : pos ≡ (if editor then editor_position else internal_position)
  pub returns : result ≡ some ((if editor then internal_position else editor_position), cursor)
  pub corresponds : live_before internal_position (flags rs) ≡ editor_position
  pub points : Points rs cursor
  pub low : cursor.internal_pos ≤ internal_position
  pub high : internal_position ≤ cursor.internal_pos + len points.range

live_size : (r : Range) (k : ℕ) → k ≤ live_len r → (if is_live r then k else 0) ≡ k
unfolding live_len
live_size (live n) k h = refl
live_size (dead n) k h = omega arith

abbrev pub settled : Place → Cursor
settled p = record (p.cursor) { range_idx = some p.idx }

-- Where the place is found, the flags count up to the position.
live_before-Found :
    (rs : List Range) (p : Place) (before after : List Range) (k : ℕ)
    → IsAt rs before after p.range p.cursor
    → k ≤ len p.range
    → live_before (total before + k) (flags rs)
      ≡ measure true before + (if is_live p.range then k else 0)
live_before-Found rs p before after k a h =
    ap (λ x. live_before (total before + k) (flags x)) a.around
    ∙ live_before-in_range before after p.range (total before + k) k refl h

abbrev found_points :
    (rs : List Range) (pos : ℕ) (editor : Bool) (p : Place)
    → Found rs pos editor p
    → Points rs (settled p)
found_points rs pos editor p f = record {
  before = f.before;
  after = f.after;
  range = p.range;
  at = record { around = f.at.around; internal = f.at.internal; editor = f.at.editor };
  index = ap some f.index;
}

position_in-editor :
    (pos : ℕ) (rs : List Range) (p : Place)
    → total rs < 2 ^ 64
    → (f : Found rs pos true p)
    → position_in pos true p ≡ total f.before + (pos - measure true f.before)
unfolding position_in cursor_pos
position_in-editor pos rs p bound f =
    let all = total-IsAt f.at in
    let le = measure-le f.before in
    let small = size-le true p.range in omega (arith, f.low, f.high, f.at.internal, f.at.editor)

position_in-internal :
    (pos : ℕ) (rs : List Range) (p : Place)
    → total rs < 2 ^ 64
    → (f : Found rs pos false p)
    → position_in pos false p
      ≡ measure true f.before + (if is_live p.range then pos - total f.before else 0)
unfolding position_in cursor_pos
position_in-internal pos rs p bound f =
    let all = total-IsAt f.at in
    let le = measure-le f.before in
    let same = measure-total f.before in ground (arith, f.low, f.high, f.at.internal, f.at.editor)

pub Found-Converted :
    (rs : List Range) (pos : ℕ) (editor : Bool) (p : Place)
    → total rs < 2 ^ 64
    → Found rs pos editor p
    → Converted rs pos editor (some (position_in pos editor p, settled p))
unfolding len
Found-Converted rs pos true p bound f =
    let small = size-le true p.range in
    let k : ℕ = pos - measure true f.before in
    let q = position_in-editor pos rs p bound f in
    record {
      internal_position = total f.before + k;
      editor_position = pos;
      cursor = settled p;
      given = refl;
      returns = ap (λ i. some (i, settled p)) q;
      corresponds =
          live_before-Found rs p f.before f.after k f.at (omega (arith, f.low, f.high))
          ∙ omega (arith, live_size p.range k (omega (arith, f.high)), f.low);
      points = found_points rs pos true p f;
      low = omega (arith, f.at.internal);
      high = omega (arith, f.at.internal, f.high, f.low);
    }
Found-Converted rs pos false p bound f =
    let same = measure-total f.before in
    let k : ℕ = pos - total f.before in
    let q = position_in-internal pos rs p bound f in
    let there : total f.before + k ≡ pos = omega (arith, f.low) in
    record {
      internal_position = pos;
      editor_position = measure true f.before + (if is_live p.range then k else 0);
      cursor = settled p;
      given = refl;
      returns = ap (λ i. some (i, settled p)) q;
      corresponds =
          sym (ap (λ i. live_before i (flags rs)) there)
          ∙ live_before-Found rs p f.before f.after k f.at (omega (arith, f.high));
      points = found_points rs pos false p f;
      low = omega (arith, f.at.internal, f.low);
      high = omega (arith, f.at.internal, f.high);
    }

cursor-corresponds :
    (rs : List Range) (c : Cursor)
    → Points rs c
    → live_before c.internal_pos (flags rs) ≡ c.editor_pos
cursor-corresponds rs c p =
    ap (λ x. live_before c.internal_pos (flags x)) p.at.around
    ∙ live_before-in_range p.before p.after p.range c.internal_pos 0 (omega (arith, p.at.internal))
        (omega arith)
    ∙ ground (arith, p.at.editor)

-- At the beginning of the range that a cursor points to.
pub at_cursor-Converted :
    (rs : List Range) (pos : ℕ) (editor : Bool) (c : Cursor)
    → Points rs c
    → pos ≡ cursor_pos c editor
    → Converted rs pos editor (some (cursor_pos c (not editor), c))
unfolding cursor_pos
at_cursor-Converted rs pos true c p e = record {
  internal_position = c.internal_pos;
  editor_position = c.editor_pos;
  cursor = c;
  given = e;
  returns = refl;
  corresponds = cursor-corresponds rs c p;
  points = p;
  low = omega arith;
  high = omega arith;
}
at_cursor-Converted rs pos false c p e = record {
  internal_position = c.internal_pos;
  editor_position = c.editor_pos;
  cursor = c;
  given = e;
  returns = refl;
  corresponds = cursor-corresponds rs c p;
  points = p;
  low = omega arith;
  high = omega arith;
}
