-- ===== src/InternalDoc/Edits/Lengths.antt =====
-- `editor_len` and `internal_len` of a well-formed internal document.
use collab_mode.Prelude.{add_u64, ℕ, ◌+◌, ◌^◌, ◌<◌, ◌≡◌, ◌∙◌, true, List, [], ◌∷◌, arith, length}
use collab_mode.Document.{Document, shown}
use collab_mode.InternalDoc.{
  Range, live, dead, is_live, len, live_len, InternalDoc, editor_len, editor_len_from, internal_len,
}
use collab_mode.InternalDoc.Flags.{total}
use collab_mode.InternalDoc.Convert.Measure.{measure}
use collab_mode.InternalDoc.Edits.Synced.{Represents, total-Represents, measure-Represents}

editor_len_from-measure :
    (acc : ℕ) (rs : List Range)
    → acc + total rs < 2 ^ 64
    → editor_len_from acc rs ≡ acc + measure true rs
unfolding editor_len_from measure total is_live len live_len
editor_len_from-measure acc [] h = omega arith
editor_len_from-measure acc (live n ∷ rs) h =
    editor_len_from-measure (add_u64 acc n) rs (omega arith) ∙ omega arith
editor_len_from-measure acc (dead n ∷ rs) h =
    editor_len_from-measure acc rs (omega arith) ∙ omega arith

internal_len-total : (rs : List Range) → total rs < 2 ^ 64 → internal_len rs ≡ total rs
unfolding internal_len total
internal_len-total [] h = omega arith
internal_len-total (r ∷ rs) h = let ih = internal_len-total rs (omega arith) in omega (arith, ih)

-- Let the internal document stand for a document of less than `2 ^ 64` characters. Then `editor_len`
-- is the length of the text that the document shows, and `internal_len` the number of its
-- characters, tombstones included.
pub editor_len-shown :
    (d : InternalDoc) (doc : Document)
    → Represents d doc
    → length doc < 2 ^ 64
    → (editor_len d ≡ length (shown doc)) × (internal_len d.ranges ≡ length doc)
unfolding editor_len
editor_len-shown d doc r h =
    let t = total-Represents d doc r in
    let m = measure-Represents d doc r in
    (
      omega (arith, editor_len_from-measure 0 d.ranges (omega (arith, t))),
      omega (arith, internal_len-total d.ranges (omega (arith, t))),
    )
