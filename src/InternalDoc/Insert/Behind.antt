-- ===== src/InternalDoc/Insert/Behind.antt =====
-- `apply_ins` at the end of a dead range and inside of one.
use collab_mode.Prelude.{
  ℕ, suc, ◌+◌, ◌-◌, ◌^◌, ◌≤◌, ◌<◌, ◌≡◌, refl, sym, ap, ◌∙◌, ltb, Bool, true, false, none, some,
  List, [], ◌∷◌, ◌++◌, arith, length, length-append, replicate, length-replicate,
  get_elem?-append_second, set-append_second, drop-append_second, take, take-append, drop-append,
  add_u64, sub_u64, append_assoc,
}
use collab_mode.InternalDoc.Convert.Measure.{measure, measure-append}
use collab_mode.InternalDoc.Insert.Cursors.{Stands, append-Stands, append-Valid, take-parts}
use collab_mode.InternalDoc.Insert.Follow.{Replaced, front-Stands, shift_cursors_right-Valid}
use collab_mode.InternalDoc.{live_len, Range, live, dead, is_live, len, Cursor}
use collab_mode.InternalDoc.Flags.{
  flags, flags-append, total, total-append, insert_flags, insert_flags-append, insert_flags-live,
  insert_flags-dead, Coalesced, Coalesced-split, Coalesced-join,
}
use collab_mode.InternalDoc.Insert.{ins_after, ins_inside, insert_range, shift_cursors_right}
use collab_mode.InternalDoc.Insert.Refine.{Inserts, insert_flags-behind, live_grows}

-- (e) At the end of a dead range with a live one behind it, which grows.
module _ (cs : List (ℕ × Cursor)) (before after : List Range) (k m n pos : ℕ) (c : Cursor) where
  pub next-Inserts :
      Coalesced none (before ++ dead m ∷ live k ∷ after)
      → pos ≡ total before + m
      → k + n < 2 ^ 64
      → Inserts cs
          (length before)
          c
          (ins_after
            (record { ranges = before ++ dead m ∷ live k ∷ after; cursors = cs })
            (length before)
            n
            c)
          (before ++ dead m ∷ live k ∷ after)
          pos
          n
  unfolding ins_after is_live len flags
  next-Inserts co e bound =
      let e1 : length before + 1 ≡ suc (length before) = omega arith in
      let e2 : add_u64 k n ≡ k + n = omega arith in
      let e3 : ltb (suc (length before)) (length (before ++ dead m ∷ live k ∷ after)) ≡ true =
        ground (arith, length-append before (dead m ∷ live k ∷ after)) in
      let (left, right) = Coalesced-split none before (dead m ∷ live k ∷ after) co in
      record {
        document = record {
          ranges = before ++ dead m ∷ live (k + n) ∷ after;
          cursors = shift_cursors_right (length before + 2) n 0 cs;
        };
        cursor = c;
        returns = rw e1 (rw e3 (rw get_elem?-append_second (rw set-append_second (rw e2))));
        inserts =
            flags-append before _
            ∙ ap (λ fs. flags before ++ (replicate m false ++ fs))
                (sym (insert_flags-live 0 n k (flags after) (omega arith)))
            ∙ ap (flags before ++◌) (sym (behind_dead (flags (live k ∷ after))))
            ∙ sym (insert_flags-behind before (dead m ∷ live k ∷ after) pos m n e);
        coalesced =
            Coalesced-join none before (dead m ∷ live (k + n) ∷ after) left
              (right.0, right.1, (omega arith, right.2.1, right.2.2));
        others_follow =
            shift_cursors_right-Valid (length before + 2) cs next_grows
              (omega (arith, length-append before (dead m ∷ [])));
        own_follows = λ bound s e.
            front-Stands c next_grows s (omega (arith, length-append before (dead m ∷ [])));
      }
    where
      next_grows :
          Replaced
            (before ++ dead m ∷ [])
            (live k ∷ [])
            (before ++ dead m ∷ live k ∷ after)
            (before ++ dead m ∷ live (k + n) ∷ after)
            n
            0
      next_grows =
          live_grows (before ++ dead m ∷ []) after k n
            (sym (append_assoc before (dead m ∷ []) (live k ∷ after)))
            (sym (append_assoc before (dead m ∷ []) (live (k + n) ∷ after)))

      behind_dead :
          (ys : List Bool)
          → insert_flags m n (replicate m false ++ ys) ≡ replicate m false ++ insert_flags 0 n ys
      behind_dead ys =
          insert_flags-append (replicate m false) ys m 0 n (omega (arith, length-replicate m false))

-- A dead range is cut in two.
dead_is_cut :
    (before after : List Range) (k n m : ℕ)
    → k ≤ m
    → Replaced before
        (dead m ∷ [])
        (before ++ dead m ∷ after)
        (before ++ dead k ∷ live n ∷ dead (m - k) ∷ after)
        n
        2
unfolding total measure live_len is_live len
dead_is_cut before after k n m h = record {
  mid' = dead k ∷ live n ∷ dead (m - k) ∷ [];
  after = after;
  is_old = refl;
  is_new = refl;
  chars = omega arith;
  live_chars = omega arith;
  count = omega arith;
  few = omega arith;
  some_range = omega arith;
}

-- The cursor of the inserting site moves into the cut.
own_inside :
    (before after : List Range) (k n m pos : ℕ) (c : Cursor)
    → pos ≡ total before + k
    → (s : Stands (before ++ dead m ∷ after) c) → s.idx ≡ length before
    → Stands
        (before ++ dead k ∷ live n ∷ dead (m - k) ∷ after)
        (record c { internal_pos = pos; range_idx = some (length before + 1) })
unfolding total measure live_len is_live len
own_inside before after k n m pos c at s e =
    let rest : List Range = live n ∷ dead (m - k) ∷ after in
    let to : take (length before + 1) (before ++ dead k ∷ rest) ≡ before ++ (dead k ∷ []) =
      take-parts (length before + 1) 0 before (dead k ∷ []) rest (omega arith) in
    let from : take s.idx (before ++ dead m ∷ after) ≡ before =
      ap (λ i. take i (before ++ dead m ∷ after)) e ∙ take-append before (dead m ∷ after) in
    record {
      idx = length before + 1;
      index = refl;
      within = omega (arith, length-append before (dead k ∷ rest));
      internal = omega (arith, ap total to, total-append before (dead k ∷ []));
      editor = omega (
        arith,
        s.editor,
        ap (measure true) from,
        ap (measure true) to,
        measure-append true before (dead k ∷ []),
      );
    }

-- (f), (g) At the end of the last range, and inside a range, both dead.
module _ (cs : List (ℕ × Cursor)) (before after : List Range) (m n pos : ℕ) (c : Cursor) where
  pub last-Inserts :
      Coalesced none (before ++ dead m ∷ [])
      → 0 < n
      → pos ≡ total before + m
      → Inserts cs
          (length before)
          c
          (ins_after (record { ranges = before ++ dead m ∷ []; cursors = cs }) (length before) n c)
          (before ++ dead m ∷ [])
          pos
          n
  unfolding ins_after is_live len flags insert_flags
  last-Inserts co some_text e =
      let e1 : ltb (length before + 1) (length (before ++ dead m ∷ [])) ≡ false =
        ground (arith, length-append before (dead m ∷ [])) in
      let (left, right) = Coalesced-split none before (dead m ∷ []) co in
      let e2 : (before ++ dead m ∷ []) ++ live n ∷ [] ≡ before ++ dead m ∷ live n ∷ [] =
        append_assoc before (dead m ∷ []) (live n ∷ []) in
      record {
        document = record { ranges = (before ++ dead m ∷ []) ++ live n ∷ []; cursors = cs };
        cursor = c;
        returns = rw e1;
        inserts =
            ap flags e2
            ∙ flags-append before _
            ∙ ap (flags before ++◌) (
                sym (
                  insert_flags-append (replicate m false) [] m 0 n
                    (omega (arith, length-replicate m false))))
            ∙ sym (insert_flags-behind before (dead m ∷ []) pos m n e);
        coalesced = rw e2 (
            Coalesced-join none before (dead m ∷ live n ∷ []) left
              (right.0, right.1, (some_text, (λ e. cc), tt)));
        others_follow = λ bound. append-Valid (before ++ dead m ∷ []) (live n ∷ []) cs;
        own_follows = λ bound s e. append-Stands (before ++ dead m ∷ []) (live n ∷ []) c s;
      }

  pub inside-Inserts :
      Coalesced none (before ++ dead m ∷ after)
      → 0 < n
      → c.internal_pos ≡ total before
      → c.internal_pos < pos
      → pos < c.internal_pos + m
      → total before + m < 2 ^ 64
      → Inserts cs
          (length before)
          c
          (ins_inside
            (record { ranges = before ++ dead m ∷ after; cursors = cs })
            (length before)
            m
            pos
            n
            c)
          (before ++ dead m ∷ after)
          pos
          n
  unfolding ins_inside insert_range is_live len flags
  inside-Inserts co some_text at lo hi bound =
      let k : ℕ = pos - total before in
      let e1 : sub_u64 pos c.internal_pos ≡ k = omega arith in
      let e2 : sub_u64 m k ≡ m - k = omega arith in
      let e3 : length before + 1 ≡ suc (length before) = omega arith in
      let (left, right) = Coalesced-split none before (dead m ∷ after) co in
      record {
        document = record {
          ranges = before ++ dead k ∷ live n ∷ dead (m - k) ∷ after;
          cursors = shift_cursors_right (length before + 1) n 2 cs;
        };
        cursor = record c { internal_pos = pos; range_idx = some (length before + 1) };
        returns = rw e1 (rw e2 (rw e3 (simp (drop-append_second, take, take-append, drop-append))));
        inserts =
            flags-append before _
            ∙ ap (flags before ++◌)
                (sym (insert_flags-dead k n m (m - k) (flags after) (omega arith)))
            ∙ sym (insert_flags-behind before (dead m ∷ after) pos k n (omega arith));
        coalesced =
            Coalesced-join none before (dead k ∷ live n ∷ dead (m - k) ∷ after) left
              (omega arith, right.1, (some_text, (λ e. cc), (omega arith, (λ e. cc), right.2)));
        others_follow =
            shift_cursors_right-Valid (length before + 1) cs
              (dead_is_cut before after k n m (omega arith)) (omega arith);
        own_follows = λ bound s e. own_inside before after k n m pos c (omega arith) s e;
      }
