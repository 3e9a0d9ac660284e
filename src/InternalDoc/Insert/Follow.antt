-- ===== src/InternalDoc/Insert/Follow.antt =====
-- Where a range is replaced by longer ones, the cursors follow.
use collab_mode.Prelude.{
  ℕ, ◌+◌, ◌-◌, ◌^◌, ◌≤◌, ◌<◌, ◌≡◌, inl, inr, refl, sym, ap, ◌∙◌, leb, true, Bool-cases, some, List,
  [], ◌∷◌, ◌++◌, arith, length, take, add_u64,
}
use collab_mode.InternalDoc.{Range, Cursor}
use collab_mode.InternalDoc.Flags.{total}
use collab_mode.InternalDoc.Convert.Measure.{measure, measure-le}
use collab_mode.InternalDoc.Convert.Result.{Usable}
use collab_mode.InternalDoc.Insert.{shift_cursor, shift_cursors_right}
use collab_mode.InternalDoc.Insert.Cursors.{
  Stands, Points-Stands, Stands-Points, Valid, take-append_le, take-parts, total-take, total-parts,
  measure-parts, length-parts,
}

-- In `old`, ranges `mid` behind `before`, at most one, are replaced by others with `n` live
-- characters and `delta` ranges more, which gives `new`.
pub record Replaced (before mid old new : List Range) (n delta : ℕ) : Type 0 where
  pub mid' : List Range
  pub after : List Range
  pub is_old : old ≡ before ++ (mid ++ after)
  pub is_new : new ≡ before ++ (mid' ++ after)
  pub chars : total mid' ≡ total mid + n
  pub live_chars : measure true mid' ≡ measure true mid + n
  pub count : length mid' ≡ length mid + delta
  pub few : length mid ≤ 1
  pub some_range : 1 ≤ length mid'

pub behind-Stands :
    {before mid old new : List Range} {n delta : ℕ} (c : Cursor)
    → Replaced before mid old new n delta
    → (s : Stands old c) → total old + n < 2 ^ 64
    → length before + length mid ≤ s.idx
    → Stands new (record {
      internal_pos = add_u64 c.internal_pos n;
      editor_pos = add_u64 c.editor_pos n;
      range_idx = some (s.idx + delta);
    })
behind-Stands {before = before} {mid} {old} {new} {n} {delta} c l s bound h =
    let j : ℕ = s.idx - (length before + length mid) in
    let from : take s.idx old ≡ before ++ (mid ++ take j l.after) =
      ap (take s.idx) l.is_old ∙ take-parts s.idx j before mid l.after (omega arith) in
    let to : take (s.idx + delta) new ≡ before ++ (l.mid' ++ take j l.after) =
      ap (take (s.idx + delta)) l.is_new
      ∙ take-parts (s.idx + delta) j before l.mid' l.after (omega (arith, l.count)) in
    let le = total-take s.idx old in
    let le' = measure-le (take s.idx old) in
    record {
      idx = s.idx + delta;
      index = refl;
      within = omega (
        arith,
        s.within,
        l.count,
        ap length l.is_old,
        ap length l.is_new,
        length-parts before mid l.after,
        length-parts before l.mid' l.after,
      );
      internal = omega (
        arith,
        s.internal,
        l.chars,
        ap total from,
        ap total to,
        total-parts before mid (take j l.after),
        total-parts before l.mid' (take j l.after),
      );
      editor = omega (
        arith,
        s.editor,
        l.live_chars,
        ap (measure true) from,
        ap (measure true) to,
        measure-parts before mid (take j l.after),
        measure-parts before l.mid' (take j l.after),
      );
    }

pub front-Stands :
    {before mid old new : List Range} {n delta : ℕ} (c : Cursor)
    → Replaced before mid old new n delta
    → (s : Stands old c) → s.idx ≤ length before
    → Stands new c
front-Stands {before = before} {mid} c l s h =
    let from = ap (take s.idx) l.is_old ∙ take-append_le s.idx before (mid ++ l.after) h in
    let to = ap (take s.idx) l.is_new ∙ take-append_le s.idx before (l.mid' ++ l.after) h in
    record {
      idx = s.idx;
      index = s.index;
      within = omega (arith, l.some_range, ap length l.is_new, length-parts before l.mid' l.after);
      internal = s.internal ∙ ap total (from ∙ sym to);
      editor = s.editor ∙ ap (measure true) (from ∙ sym to);
    }

shift-Stands :
    {before mid old new : List Range} {n delta : ℕ} (c : Cursor) (t : ℕ)
    → Replaced before mid old new n delta
    → t ≡ length before + length mid
    → total old + n < 2 ^ 64
    → Stands old c
    → Stands new (shift_cursor t n delta c)
unfolding shift_cursor
shift-Stands c t l e bound s = rw s.index (elim (Bool-cases (leb t s.idx)) [
  | inl moved ↦ rw moved (behind-Stands c l s bound (ground arith))
  | inr stays ↦ rw stays (
      front-Stands (record c { range_idx = some s.idx }) l
        (record {
          idx = s.idx;
          index = refl;
          within = s.within;
          internal = s.internal;
          editor = s.editor;
        })
        (ground (arith, l.few)))
])

shift-Usable :
    {before mid old new : List Range} {n delta : ℕ} (c : Cursor) (t : ℕ)
    → Replaced before mid old new n delta
    → t ≡ length before + length mid
    → total old + n < 2 ^ 64
    → Usable old c
    → Usable new (shift_cursor t n delta c)
unfolding shift_cursor
shift-Usable c t l e bound (inl is_origin) = inl (rw is_origin)
shift-Usable {old = old} {new} {n} {delta} c t l e bound (inr p) = inr (
    Stands-Points new (shift_cursor t n delta c)
      (shift-Stands c t l e bound (Points-Stands old c p)))

-- The cursors of the other sites stay valid.
pub shift_cursors_right-Valid :
    {before mid old new : List Range} {n delta : ℕ} (t : ℕ) (cs : List (ℕ × Cursor))
    → Replaced before mid old new n delta
    → t ≡ length before + length mid
    → total old + n < 2 ^ 64
    → Valid old cs
    → Valid new (shift_cursors_right t n delta cs)
unfolding shift_cursors_right
shift_cursors_right-Valid t [] l e bound v = tt
shift_cursors_right-Valid t ((_, c) ∷ cs) l e bound (u, v) =
    (shift-Usable c t l e bound u, shift_cursors_right-Valid t cs l e bound v)
