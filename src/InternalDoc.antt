-- ===== src/InternalDoc.antt =====
-- The internal document: ranges of live text and tombstones, and a cursor for each site
-- (collab_mode/src/engine.rs). `none` is a panic or an exit of the process.
pub mod Flags
pub mod Convert
pub mod Insert
pub mod Iterator
pub mod Mark
pub mod Apply
pub mod Edits
pub mod Cursors
use collab_mode.Prelude.{
  ℕ, zero, suc, ◌+◌, ◌==◌, ltb, Bool, true, false, not, Option, none, some, List, [], ◌∷◌, add_u64,
  if◌then◌else◌,
}

pub data Range : Type 0 where
  live : ℕ → Range
  dead : ℕ → Range

unfoldable pub is_live : Range → Bool
is_live (live _) = true
is_live (dead _) = false

unfoldable pub is_dead : Range → Bool
unfolding is_live
is_dead r = not (is_live r)

unfoldable pub len : Range → ℕ
len (live n) = n
len (dead n) = n

unfoldable pub live_len : Range → ℕ
unfolding is_live len
live_len r = if is_live r then len r else 0

pub record Cursor : Type 0 where
  pub editor_pos : ℕ
  pub internal_pos : ℕ
  pub range_idx : Option ℕ

-- `Cursor::pos`
unfoldable pub cursor_pos : Cursor → Bool → ℕ
cursor_pos c true = c.editor_pos
cursor_pos c false = c.internal_pos

pub record InternalDoc : Type 0 where
  pub ranges : List Range
  pub cursors : List (ℕ × Cursor)

unfoldable pub new : ℕ → InternalDoc
new init_len = record { ranges = (if ltb 0 init_len then live init_len ∷ [] else []); cursors = [] }

unfoldable pub editor_len_from : ℕ → List Range → ℕ
editor_len_from acc [] = acc
editor_len_from acc (live n ∷ rs) = editor_len_from (add_u64 acc n) rs
editor_len_from acc (dead n ∷ rs) = editor_len_from acc rs

unfoldable pub editor_len : InternalDoc → ℕ
unfolding editor_len_from
editor_len d = editor_len_from 0 d.ranges

unfoldable pub internal_len : List Range → ℕ
unfolding len
internal_len [] = 0
internal_len (r ∷ rs) = add_u64 (len r) (internal_len rs)

-- The map from sites to cursors.
unfoldable pub lookup : ℕ → List (ℕ × Cursor) → Option Cursor
lookup s [] = none
lookup s ((s', c) ∷ cs) = if s == s' then some c else lookup s cs

-- `HashMap::insert`
unfoldable pub put : ℕ → Cursor → List (ℕ × Cursor) → List (ℕ × Cursor)
put s c [] = (s, c) ∷ []
put s c ((s', c') ∷ cs) = if s == s' then (s, c) ∷ cs else (s', c') ∷ put s c cs

abbrev pub origin : Cursor
origin = record { editor_pos = 0; internal_pos = 0; range_idx = none }

-- A copy of the cursor of a site, which is made where there is none.
unfoldable pub get_cursor : InternalDoc → ℕ → Cursor × InternalDoc
unfolding lookup put
get_cursor d site = elim (lookup site d.cursors) [
  | none ↦ (origin, record d { cursors = put site origin d.cursors })
  | some c ↦ (c, d)
]

-- One cursor against the ranges: the loop of `check_cursor_positions` over the ranges.
unfoldable pub check_cursor : Cursor → ℕ → ℕ → List Range → Bool
check_cursor c editor_pos internal_pos [] = true
check_cursor c editor_pos internal_pos (r ∷ rs) =
    let rest = check_cursor c (add_u64 editor_pos (live_len r)) (add_u64 internal_pos (len r)) rs in
    if internal_pos == c.internal_pos then editor_pos == c.editor_pos else rest

-- False where the process exits.
unfoldable pub check_cursor_positions : List Range → List (ℕ × Cursor) → Bool
unfolding check_cursor
check_cursor_positions ranges [] = true
check_cursor_positions ranges ((_, c) ∷ cs) =
    let rest = check_cursor_positions ranges cs in
    elim c.range_idx [ none ↦ rest | some _ ↦ (if check_cursor c 0 0 ranges then rest else false) ]
