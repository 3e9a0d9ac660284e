-- ===== src/InternalDoc/Insert/Result.antt =====
-- What `apply_ins` as a whole returns.
use mathlib.Core.Path.{subst}
use collab_mode.Prelude.{
  ℕ, suc, ◌+◌, ◌^◌, ◌≤◌, ◌<◌, ◌≡◌, refl, sym, ap, ◌∙◌, Option, take, take-append, ◌==◌, leb, true,
  false, none, some, List, [], ◌∷◌, ◌++◌, inl, inr, Bool-cases, arith, length, length-append,
  get_elem?-append_cons, snoc-cases, add_u64, append_assoc,
}
use collab_mode.InternalDoc.{Range, live, dead, is_live, len, Cursor, InternalDoc}
use collab_mode.InternalDoc.Flags.{
  flags, total, total-append, total-around, insert_flags, Coalesced, Coalesced-split,
}
use collab_mode.InternalDoc.Insert.{ins_before, ins_after, ins_in_range, apply_ins}
use collab_mode.InternalDoc.Convert.Measure.{measure}
use collab_mode.InternalDoc.Insert.Cursors.{Valid, Stands-Points}
use collab_mode.InternalDoc.Convert.Places.{Points}
use collab_mode.InternalDoc.Convert.Walk.{IsAt}
use collab_mode.InternalDoc.Insert.Behind.{next-Inserts, last-Inserts, inside-Inserts}
use collab_mode.InternalDoc.Insert.Refine.{
  Inserts, live-Inserts, first-Inserts, live_before_dead, grow-Inserts,
}

abbrev doc : List (ℕ × Cursor) → List Range → InternalDoc
doc cs rs = record { ranges = rs; cursors = cs }

module _ (cs : List (ℕ × Cursor)) (after : List Range) (m n pos : ℕ) (c : Cursor) where
  -- Cases (c) and (d), for the ranges before the dead one.
  abbrev AtBeginning : List Range → Type 0
  AtBeginning before =
      Coalesced none (before ++ dead m ∷ after)
      → pos ≡ total before
      → total before + n < 2 ^ 64
      → Inserts cs (length before) c
          (ins_before (doc cs (before ++ dead m ∷ after)) (length before) n c)
          (before ++ dead m ∷ after) pos n

  behind_live : (before : List Range) (k : ℕ) → AtBeginning (before ++ live k ∷ [])
  behind_live before k co at bound =
      let e : (before ++ live k ∷ []) ++ dead m ∷ after ≡ before ++ live k ∷ dead m ∷ after =
        append_assoc before (live k ∷ []) (dead m ∷ after) in
      let e2 : length (before ++ live k ∷ []) ≡ suc (length before) =
        omega (arith, length-append before (live k ∷ [])) in
      let e3 : total (before ++ live k ∷ []) ≡ total before + k =
        total-append before (live k ∷ []) ∙ unfold total len in omega arith in
      rw (e, e2)
        (grow-Inserts cs before after k m n pos c (rw e at co) (at ∙ e3) (omega (arith, e3)))

  at_beginning : (before : List Range) → 0 < n → AtBeginning before
  at_beginning [] some_text = λ co at bound.
      let e : pos ≡ 0 = unfold total in at in rw e (first-Inserts cs after m n c co some_text)
  at_beginning (b ∷ bs) some_text =
      let (ys, y, e) = snoc-cases b bs in
      subst AtBeginning (sym e) (λ co at bound.
        let (k, is_k, _) = live_before_dead ys after y m co in
        subst (λ r. AtBeginning (ys ++ r ∷ [])) (sym is_k) (behind_live ys k) co at bound)

-- Cases (e) and (f), for the ranges behind the dead one.
total-cons : (k : ℕ) (rs : List Range) → total (live k ∷ rs) ≡ k + total rs
unfolding total len
total-cons k rs = refl

at_end :
    (cs : List (ℕ × Cursor)) (before after : List Range) (m n pos : ℕ) (c : Cursor)
    → 0 < n
    → Coalesced none (before ++ dead m ∷ after)
    → pos ≡ total before + m
    → total (before ++ dead m ∷ after) + n < 2 ^ 64
    → Inserts cs
        (length before)
        c
        (ins_after (doc cs (before ++ dead m ∷ after)) (length before) n c)
        (before ++ dead m ∷ after)
        pos
        n
at_end cs before [] m n pos c some_text co at bound =
    last-Inserts cs before [] m n pos c co some_text at
at_end cs before (live k ∷ after) m n pos c some_text co at bound =
    next-Inserts cs before after k m n pos c co at
      (omega (arith, total-around before (live k ∷ after) (dead m), total-cons k after))
at_end cs before (dead k ∷ after) m n pos c some_text co at bound =
    let (_, right) = Coalesced-split none before (dead m ∷ dead k ∷ after) co in
    absurd (right.2.1 (unfold is_live in refl))

module _ (cs : List (ℕ × Cursor)) (before after : List Range) (r : Range) (pos n : ℕ)
    (c : Cursor) where
  -- The checks at the beginning pass.
  apply_ins-in_range :
      c.range_idx ≡ some (length before)
      → c.internal_pos ≤ pos
      → pos ≤ c.internal_pos + len r
      → c.internal_pos + len r < 2 ^ 64
      → apply_ins (doc cs (before ++ r ∷ after)) pos n c
        ≡ ins_in_range (doc cs (before ++ r ∷ after)) (length before) r pos n c
  unfolding apply_ins
  apply_ins-in_range idx lo hi bound =
      let e1 : (length (before ++ r ∷ after) == 0) ≡ false =
        ground (arith, length-append before (r ∷ after)) in
      let e2 : leb c.internal_pos pos ≡ true = ground arith in
      let e3 : leb pos (add_u64 c.internal_pos (len r)) ≡ true = ground arith in
      rw e1 (rw idx (rw get_elem?-append_cons (rw e2 (rw e3))))

-- In a dead range, by the place of `pos` in it.
dead_range-Inserts :
    (cs : List (ℕ × Cursor)) (before after : List Range) (m pos n : ℕ) (c : Cursor)
    → 0 < n
    → Coalesced none (before ++ dead m ∷ after)
    → c.internal_pos ≡ total before
    → c.internal_pos ≤ pos
    → pos ≤ c.internal_pos + m
    → total (before ++ dead m ∷ after) + n < 2 ^ 64
    → total before + m + total after + n < 2 ^ 64
    → Inserts cs
        (length before)
        c
        (ins_in_range (doc cs (before ++ dead m ∷ after)) (length before) (dead m) pos n c)
        (before ++ dead m ∷ after)
        pos
        n
unfolding ins_in_range
dead_range-Inserts cs before after m pos n c some_text co at lo hi bound parts =
    elim (Bool-cases (c.internal_pos == pos)) [
      | inl beg ↦
          let same : c.internal_pos ≡ pos = ground arith in
          rw beg (at_beginning cs after m n pos c before some_text co (sym same ∙ at) (omega arith))
      | inr not_beg ↦ elim (Bool-cases (add_u64 c.internal_pos m == pos)) [
        | inl end ↦
            let same : pos ≡ total before + m = ground arith in
            rw not_beg (rw end (at_end cs before after m n pos c some_text co same bound))
        | inr not_end ↦
            let lo' : c.internal_pos < pos = ground arith in
            let hi' : pos < c.internal_pos + m = ground arith in
            rw not_beg (
              rw not_end
                (inside-Inserts cs before after m n pos c co some_text at lo' hi' (omega arith)))
      ]
    ]

apply_ins-Inserts :
    (cs : List (ℕ × Cursor)) (before after : List Range) (r : Range) (pos n : ℕ) (c : Cursor)
    → 0 < n
    → Coalesced none (before ++ r ∷ after)
    → c.range_idx ≡ some (length before)
    → c.internal_pos ≡ total before
    → c.internal_pos ≤ pos
    → pos ≤ c.internal_pos + len r
    → total (before ++ r ∷ after) + n < 2 ^ 64
    → Inserts cs
        (length before)
        c
        (apply_ins (record { ranges = before ++ r ∷ after; cursors = cs }) pos n c)
        (before ++ r ∷ after)
        pos
        n
apply_ins-Inserts cs before after (live m) pos n c some_text co idx at lo hi bound =
    let parts = total-around before after (live m) in
    let hi' : pos ≤ c.internal_pos + m = unfold len in hi in
    let parts' : total before + m + total after + n < 2 ^ 64 = unfold len in omega (arith, parts) in
    rw (apply_ins-in_range cs before after (live m) pos n c idx lo hi (omega (arith, parts)))
      (unfold ins_in_range in live-Inserts cs before after m pos n c co at lo hi' (omega arith))
apply_ins-Inserts cs before after (dead m) pos n c some_text co idx at lo hi bound =
    let parts = total-around before after (dead m) in
    let hi' : pos ≤ c.internal_pos + m = unfold len in hi in
    let parts' : total before + m + total after + n < 2 ^ 64 = unfold len in omega (arith, parts) in
    rw (apply_ins-in_range cs before after (dead m) pos n c idx lo hi (omega (arith, parts)))
      (dead_range-Inserts cs before after m pos n c some_text co at lo hi' bound parts')

-- The call returns a document whose characters are those of `ranges` with `n` live ones inserted at
-- `pos`, whose ranges are coalesced, and whose cursors are valid, as the one returned is.
pub record Inserted (result : Option (InternalDoc × Cursor)) (ranges : List Range) (pos n : ℕ)
    : Type 0 where
  pub document : InternalDoc
  pub cursor : Cursor
  pub returns : result ≡ some (document, cursor)
  pub inserts : flags document.ranges ≡ insert_flags pos n (flags ranges)
  pub coalesced : Coalesced none document.ranges
  pub valid : Valid document.ranges document.cursors
  pub points : Points document.ranges cursor

-- Let the cursor point to the range `r` behind the ranges `before`, at its beginning, `pos` lie
-- within `r` or at an end of it, the ranges be coalesced, the text not be empty, the cursors of the
-- other sites point to ranges or be new, and the length of the document with the text stay below
-- `2 ^ 64`. Then `apply_ins` does not panic, the characters of the document afterwards are those
-- from before with `n` live ones inserted at `pos`, the ranges are coalesced again, and the cursors
-- of all sites and the one returned stand at ranges again, with both of their positions right.
pub apply_ins-Inserted :
    (cs : List (ℕ × Cursor)) (before after : List Range) (r : Range) (pos n : ℕ) (c : Cursor)
    → 0 < n
    → Coalesced none (before ++ r ∷ after)
    → Valid (before ++ r ∷ after) cs
    → IsAt (before ++ r ∷ after) before after r c
    → c.range_idx ≡ some (length before)
    → c.internal_pos ≤ pos
    → pos ≤ c.internal_pos + len r
    → total (before ++ r ∷ after) + n < 2 ^ 64
    → Inserted
        (apply_ins (record { ranges = before ++ r ∷ after; cursors = cs }) pos n c)
        (before ++ r ∷ after)
        pos
        n
apply_ins-Inserted cs before after r pos n c some_text co valid at idx lo hi bound =
    let i = apply_ins-Inserts cs before after r pos n c some_text co idx at.internal lo hi bound in
    let from : take (length before) (before ++ r ∷ after) ≡ before =
      take-append before (r ∷ after) in
    record {
      document = i.document;
      cursor = i.cursor;
      returns = i.returns;
      inserts = i.inserts;
      coalesced = i.coalesced;
      valid = i.others_follow bound valid;
      points = Stands-Points i.document.ranges i.cursor (
          i.own_follows bound
            (record {
              idx = length before;
              index = idx;
              within = omega (arith, length-append before (r ∷ after));
              internal = at.internal ∙ sym (ap total from);
              editor = at.editor ∙ sym (ap (measure true) from);
            })
            refl);
    }
