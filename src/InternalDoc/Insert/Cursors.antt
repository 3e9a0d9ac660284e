-- ===== src/InternalDoc/Insert/Cursors.antt =====
-- Cursors by the index of their range.
use collab_mode.Prelude.{
  ℕ, zero, suc, ◌+◌, ◌≤◌, ◌<◌, ◌≡◌, inl, inr, refl, sym, ap, ◌∙◌, true, some, List, [], ◌∷◌, ◌++◌,
  arith, length, length-append, take, take-append,
}
use collab_mode.InternalDoc.{Range, Cursor}
use collab_mode.InternalDoc.Flags.{total, total-append}
use collab_mode.InternalDoc.Convert.Measure.{measure, measure-append}
use collab_mode.InternalDoc.Convert.Places.{Points}
use collab_mode.InternalDoc.Convert.Result.{Usable}

-- The cursor stands at the beginning of the range with its index.
pub record Stands (rs : List Range) (c : Cursor) : Type 0 where
  pub idx : ℕ
  pub index : c.range_idx ≡ some idx
  pub within : idx < length rs
  pub internal : c.internal_pos ≡ total (take idx rs)
  pub editor : c.editor_pos ≡ measure true (take idx rs)

pub Points-Stands : (rs : List Range) (c : Cursor) → Points rs c → Stands rs c
Points-Stands rs c p =
    let e : take (length p.before) rs ≡ p.before =
      ap (take (length p.before)) p.at.around ∙ take-append p.before (p.range ∷ p.after) in
    record {
      idx = length p.before;
      index = p.index;
      within = omega (arith, ap length p.at.around, length-append p.before (p.range ∷ p.after));
      internal = p.at.internal ∙ sym (ap total e);
      editor = p.at.editor ∙ sym (ap (measure true) e);
    }

-- The ranges around an index.
around_index :
    (rs : List Range) (i : ℕ)
    → i < length rs
    → (r : Range) × (after : List Range) × (rs ≡ take i rs ++ r ∷ after) × (length (take i rs) ≡ i)
around_index [] i h = absurd (omega arith)
around_index (x ∷ rs) zero h = (x, rs, refl, refl)
around_index (x ∷ rs) (suc i) h =
    let (r, after, e, l) = around_index rs i (omega arith) in (r, after, ap (x ∷◌) e, ap suc l)

pub Stands-Points : (rs : List Range) (c : Cursor) → Stands rs c → Points rs c
Stands-Points rs c s =
    let (r, after, e, l) = around_index rs s.idx s.within in
    record {
      before = take s.idx rs;
      after = after;
      range = r;
      at = record { around = e; internal = s.internal; editor = s.editor };
      index = s.index ∙ ap some (sym l);
    }

pub take-append_le : (i : ℕ) (xs ys : List Range) → i ≤ length xs → take i (xs ++ ys) ≡ take i xs
take-append_le zero xs ys h = refl
take-append_le (suc i) [] ys h = absurd (omega arith)
take-append_le (suc i) (x ∷ xs) ys h = ap (x ∷◌) (take-append_le i xs ys (omega arith))

take-append_more :
    (i j : ℕ) (xs ys : List Range) → i ≡ length xs + j → take i (xs ++ ys) ≡ xs ++ take j ys
take-append_more i j [] ys h = let e : i ≡ j = omega arith in ap (λ k. take k ys) e
take-append_more zero j (x ∷ xs) ys h = absurd (omega arith)
take-append_more (suc i) j (x ∷ xs) ys h = ap (x ∷◌) (take-append_more i j xs ys (omega arith))

pub total-take : (i : ℕ) (rs : List Range) → total (take i rs) ≤ total rs
unfolding total
total-take zero rs = omega arith
total-take (suc i) [] = omega arith
total-take (suc i) (r ∷ rs) = omega (arith, total-take i rs)

pub total-parts :
    (xs ys zs : List Range) → total (xs ++ (ys ++ zs)) ≡ total xs + (total ys + total zs)
total-parts xs ys zs = omega (arith, total-append xs (ys ++ zs), total-append ys zs)

pub measure-parts :
    (xs ys zs : List Range)
    → measure true (xs ++ (ys ++ zs)) ≡ measure true xs + (measure true ys + measure true zs)
measure-parts xs ys zs = omega (arith, measure-append true xs (ys ++ zs), measure-append true ys zs)

pub length-parts :
    (xs ys zs : List Range) → length (xs ++ (ys ++ zs)) ≡ length xs + (length ys + length zs)
length-parts xs ys zs = omega (arith, length-append xs (ys ++ zs), length-append ys zs)

pub take-parts :
    (i j : ℕ) (xs ys zs : List Range)
    → i ≡ length xs + (length ys + j)
    → take i (xs ++ (ys ++ zs)) ≡ xs ++ (ys ++ take j zs)
take-parts i j xs ys zs e =
    take-append_more i (length ys + j) xs (ys ++ zs) e
    ∙ ap (xs ++◌) (take-append_more (length ys + j) j ys zs refl)

-- Ranges added behind the others.
pub append-Stands : (xs ys : List Range) (c : Cursor) → Stands xs c → Stands (xs ++ ys) c
append-Stands xs ys c s =
    let e = take-append_le s.idx xs ys (omega (arith, s.within)) in
    record {
      idx = s.idx;
      index = s.index;
      within = omega (arith, s.within, length-append xs ys);
      internal = s.internal ∙ sym (ap total e);
      editor = s.editor ∙ sym (ap (measure true) e);
    }

-- Each cursor was just made, or points to a range.
abbrev pub Valid : List Range → List (ℕ × Cursor) → Type 0
Valid rs [] = Unit
Valid rs ((_, c) ∷ cs) = Usable rs c × Valid rs cs

pub append-Valid : (xs ys : List Range) (cs : List (ℕ × Cursor)) → Valid xs cs → Valid (xs ++ ys) cs
append-Valid xs ys [] v = tt
append-Valid xs ys ((_, c) ∷ cs) (inl e, v) = (inl e, append-Valid xs ys cs v)
append-Valid xs ys ((_, c) ∷ cs) (inr p, v) = (
  inr (Stands-Points (xs ++ ys) c (append-Stands xs ys c (Points-Stands xs c p))),
  append-Valid xs ys cs v,
)
