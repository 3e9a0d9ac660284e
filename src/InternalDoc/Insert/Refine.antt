-- ===== src/InternalDoc/Insert/Refine.antt =====
-- `apply_ins` inserts live characters at its position, in every case (b) to (g), and does not panic.
use collab_mode.Prelude.{
  ℕ, suc, ◌+◌, ◌-◌, ◌^◌, ◌≤◌, ◌<◌, ◌≡◌, refl, sym, ap, ◌∙◌, leb, true, Option, none, some, List, [],
  ◌∷◌, ◌++◌, arith, length, get_elem?-append_cons, set, set-append_cons, add_u64,
}
use collab_mode.InternalDoc.Convert.Measure.{measure}
use collab_mode.InternalDoc.Insert.Cursors.{Stands, Valid}
use collab_mode.InternalDoc.Insert.Follow.{
  Replaced, behind-Stands, front-Stands, shift_cursors_right-Valid,
}
use collab_mode.InternalDoc.{live_len, Range, live, dead, is_live, len, Cursor, InternalDoc}
use collab_mode.InternalDoc.Flags.{
  flags, flags-append, total, length-flags, insert_flags, insert_flags-append, insert_flags-live,
  Coalesced, Coalesced-split, Coalesced-join, last_live-append,
}
use collab_mode.InternalDoc.Insert.{ins_live, ins_before, insert_range, pushed, shift_cursors_right}

-- The call for a cursor at the range with an index returns a document whose characters are those of
-- `ranges` with `n` live ones inserted at `pos`, whose ranges are coalesced, and whose cursors still
-- point to ranges.
pub record Inserts (cs : List (ℕ × Cursor)) (idx : ℕ) (c : Cursor)
    (result : Option (InternalDoc × Cursor)) (ranges : List Range) (pos n : ℕ) : Type 0 where
  pub document : InternalDoc
  pub cursor : Cursor
  pub returns : result ≡ some (document, cursor)
  pub inserts : flags document.ranges ≡ insert_flags pos n (flags ranges)
  pub coalesced : Coalesced none document.ranges
  pub others_follow :
      total ranges + n < 2 ^ 64 → Valid ranges cs → Valid document.ranges document.cursors
  pub own_follows :
      total ranges + n < 2 ^ 64
      → (s : Stands ranges c) → s.idx ≡ idx
      → Stands document.ranges cursor

-- An insertion `k` characters behind the ranges `before`.
pub insert_flags-behind :
    (before rs : List Range) (pos k n : ℕ)
    → pos ≡ total before + k
    → insert_flags pos n (flags (before ++ rs)) ≡ flags before ++ insert_flags k n (flags rs)
insert_flags-behind before rs pos k n e =
    ap (insert_flags pos n) (flags-append before rs)
    ∙ insert_flags-append (flags before) (flags rs) pos k n (omega (arith, length-flags before))

-- A live range grows.
pub live_grows :
    {old new : List Range} (before after : List Range) (m n : ℕ)
    → old ≡ before ++ live m ∷ after
    → new ≡ before ++ live (m + n) ∷ after
    → Replaced before (live m ∷ []) old new n 0
unfolding total measure live_len is_live len
live_grows before after m n is_old is_new = record {
  mid' = live (m + n) ∷ [];
  after = after;
  is_old = is_old;
  is_new = is_new;
  chars = omega arith;
  live_chars = omega arith;
  count = omega arith;
  few = omega arith;
  some_range = omega arith;
}

-- A live range comes in front.
begins_live : (after : List Range) (n : ℕ) → Replaced [] [] after (live n ∷ after) n 1
unfolding total measure live_len is_live len
begins_live after n = record {
  mid' = live n ∷ [];
  after = after;
  is_old = refl;
  is_new = refl;
  chars = omega arith;
  live_chars = omega arith;
  count = omega arith;
  few = omega arith;
  some_range = omega arith;
}

module _ (cs : List (ℕ × Cursor)) (before after : List Range) (m pos n : ℕ) (c : Cursor) where
  abbrev pub around : Range → InternalDoc
  around r = record { ranges = before ++ r ∷ after; cursors = cs }

  pub live-Inserts :
      Coalesced none (before ++ live m ∷ after)
      → c.internal_pos ≡ total before
      → c.internal_pos ≤ pos
      → pos ≤ c.internal_pos + m
      → m + n < 2 ^ 64
      → Inserts cs
          (length before)
          c
          (ins_live (around (live m)) (length before) (live m) n c)
          (before ++ live m ∷ after)
          pos
          n
  unfolding ins_live len is_live
  live-Inserts co at lo hi bound =
      let (left, right) = Coalesced-split none before (live m ∷ after) co in
      let e : add_u64 m n ≡ m + n = omega arith in
      let grown : set (before ++ live m ∷ after) (length before) (live (add_u64 m n))
          ≡ before ++ live (m + n) ∷ after =
        set-append_cons before after (live m) _ ∙ ap (λ i. before ++ live i ∷ after) e in
      record {
        document = record {
          ranges = set (before ++ live m ∷ after) (length before) (live (add_u64 m n));
          cursors = shift_cursors_right (length before + 1) n 0 cs;
        };
        cursor = c;
        returns = refl;
        inserts =
            ap flags grown
            ∙ flags-append before _
            ∙ unfold flags in
              (ap (flags before ++◌)
                  (sym (insert_flags-live (pos - total before) n m (flags after) (omega arith)))
                ∙ sym (
                    insert_flags-behind before (live m ∷ after) pos (pos - total before) n
                      (omega arith)));
        coalesced = rw grown (
            Coalesced-join none before (live (m + n) ∷ after) left (omega arith, right.1, right.2));
        others_follow =
            shift_cursors_right-Valid (length before + 1) cs
              (live_grows before after m n refl grown) (omega arith);
        own_follows =
            λ bound s e. front-Stands c (live_grows before after m n refl grown) s (omega arith);
      }

-- (d) At the beginning of the first range, which is dead.
pub first-Inserts :
    (cs : List (ℕ × Cursor)) (after : List Range) (m n : ℕ) (c : Cursor)
    → Coalesced none (dead m ∷ after)
    → 0 < n
    → Inserts cs 0 c
        (ins_before (record { ranges = dead m ∷ after; cursors = cs }) 0 n c)
        (dead m ∷ after)
        0
        n
unfolding ins_before insert_range flags insert_flags len is_live
first-Inserts cs after m n c co pos = record {
  document = record { ranges = live n ∷ dead m ∷ after; cursors = shift_cursors_right 0 n 1 cs };
  cursor = record (pushed n c) { range_idx = some (0 + 1) };
  returns = refl;
  inserts = refl;
  coalesced = (pos, (λ e. cc), (co.0, (λ e. cc), co.2));
  others_follow = shift_cursors_right-Valid 0 cs (begins_live (dead m ∷ after) n) refl;
  own_follows = λ bound s e.
      let moved = behind-Stands c (begins_live (dead m ∷ after) n) s bound (omega arith) in
      record {
        idx = moved.idx;
        index = ap (λ i. some (i + 1)) (sym e) ∙ moved.index;
        within = moved.within;
        internal = moved.internal;
        editor = moved.editor;
      };
}

-- The last of the ranges before a dead one is live.
pub live_before_dead :
    (before after : List Range) (x : Range) (m : ℕ)
    → Coalesced none ((before ++ x ∷ []) ++ dead m ∷ after)
    → (k : ℕ) × (x ≡ live k) × (0 < k)
unfolding is_live len
live_before_dead before after (live k) m co =
    let (left, _) = Coalesced-split none (before ++ live k ∷ []) (dead m ∷ after) co in
    let (_, last) = Coalesced-split none before (live k ∷ []) left in (k, refl, last.0)
live_before_dead before after (dead k) m co =
    let (_, right) = Coalesced-split none (before ++ dead k ∷ []) (dead m ∷ after) co in
    absurd (right.1 (last_live-append none before (dead k ∷ [])))

-- (c) At the beginning of a dead range with a live one before it, which grows.
module _ (cs : List (ℕ × Cursor)) (before after : List Range) (k m n pos : ℕ) (c : Cursor) where
  abbrev grown : List Range
  grown = before ++ live (k + n) ∷ dead m ∷ after

  flags-grown :
      pos ≡ total before + k
      → flags grown ≡ insert_flags pos n (flags (before ++ live k ∷ dead m ∷ after))
  unfolding flags
  flags-grown e =
      flags-append before _
      ∙ ap (flags before ++◌) (sym (insert_flags-live k n k _ (omega arith)))
      ∙ sym (insert_flags-behind before (live k ∷ dead m ∷ after) pos k n e)

  grown-Coalesced : Coalesced none (before ++ live k ∷ dead m ∷ after) → Coalesced none grown
  unfolding len is_live
  grown-Coalesced co =
      let (left, right) = Coalesced-split none before (live k ∷ dead m ∷ after) co in
      Coalesced-join none before (live (k + n) ∷ dead m ∷ after) left
        (omega arith, right.1, right.2)

  pub grow-Inserts :
      Coalesced none (before ++ live k ∷ dead m ∷ after)
      → pos ≡ total before + k
      → k + n < 2 ^ 64
      → Inserts cs
          (suc (length before))
          c
          (ins_before
            (record { ranges = before ++ live k ∷ dead m ∷ after; cursors = cs })
            (suc (length before))
            n
            c)
          (before ++ live k ∷ dead m ∷ after)
          pos
          n
  unfolding ins_before is_live len
  grow-Inserts co e bound =
      let e1 : suc (length before) - 1 ≡ length before = omega arith in
      let e2 : add_u64 k n ≡ k + n = omega arith in
      let e3 : leb 1 (suc (length before)) ≡ true = ground arith in
      record {
        document = record {
          ranges = grown;
          cursors = shift_cursors_right (suc (length before)) n 0 cs;
        };
        cursor = pushed n c;
        returns = rw e3 (rw e1 (rw get_elem?-append_cons (rw set-append_cons (rw e2))));
        inserts = flags-grown e;
        coalesced = grown-Coalesced co;
        others_follow =
            shift_cursors_right-Valid (suc (length before)) cs
              (live_grows before (dead m ∷ after) k n refl refl) (omega arith);
        own_follows = λ bound s e.
            let moved =
              behind-Stands c (live_grows before (dead m ∷ after) k n refl refl) s bound
                (omega arith) in
            record {
              idx = moved.idx;
              index = s.index ∙ ap some (omega arith) ∙ moved.index;
              within = moved.within;
              internal = moved.internal;
              editor = moved.editor;
            };
      }
