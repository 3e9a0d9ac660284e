-- ===== src/Types/Ids.antt =====
-- Identities of servers and addresses of signaling servers (collab_mode/src/types.rs).
pub mod Laws
use collab_mode.Prelude.{
  ℕ, zero, suc, ◌+◌, ◌-◌, ◌==◌, ltb, leb, Bool, true, false, not, ◌&&◌, Option, none, some, List,
  [], ◌∷◌, ◌++◌, Text, codes, length, take, drop, if◌then◌else◌,
}
use collab_mode.Map.{text_beq}

abbrev pub starts_with : Text → Text → Bool
starts_with [] s = true
starts_with (p ∷ ps) [] = false
starts_with (p ∷ ps) (c ∷ s) = p == c && starts_with ps s

abbrev pub past_one : Option ℕ → Option ℕ
past_one none = none
past_one (some i) = some (suc i)

-- `str::find`: where the pattern begins for the first time.
unfoldable pub find : Text → Text → Option ℕ
find pat [] = if starts_with pat [] then some 0 else none
find pat (c ∷ s) =
    let rest = past_one (find pat s) in if starts_with pat (c ∷ s) then some 0 else rest

abbrev pub separator : Text
separator = codes "::"

unfoldable pub id_hash : Text → Text
unfolding find
id_hash id = elim (find separator id) [ none ↦ id | some idx ↦ drop (idx + 2) id ]

unfoldable pub id_name : Text → Option Text
unfolding find
id_name id = elim (find separator id) [ none ↦ none | some idx ↦ some (take idx id) ]

unfoldable pub make_id : Option Text → Text → Text
make_id none cert_hash = cert_hash
make_id (some []) cert_hash = cert_hash
make_id (some (c ∷ name)) cert_hash = (c ∷ name) ++ (separator ++ cert_hash)

unfoldable pub normalize_signaling_addr : Text → Text
unfolding find
normalize_signaling_addr addr = elim (find (codes "://") addr) [
  | none ↦ codes "wss://" ++ addr
  | some idx ↦ (if ltb 0 idx then addr else codes "wss://" ++ addr)
]
