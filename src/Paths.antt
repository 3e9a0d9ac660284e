-- ===== src/Paths.antt =====
-- `std::path` on Unix, as far as the document server uses it: a path is its text.
use collab_mode.Prelude.{
  ℕ, ◌==◌, Bool, true, false, not, ◌&&◌, ◌||◌, Option, none, some, List, [], ◌∷◌, ◌++◌, reverse,
  Text, codes, if◌then◌else◌,
}
use collab_mode.Map.{text_beq}

unfoldable pub is_absolute : Text → Bool
is_absolute [] = false
is_absolute (c ∷ _) = c == 47

-- The pieces between the slashes.
abbrev to_first : ℕ → List Text → List Text
to_first c [] = (c ∷ []) ∷ []
to_first c (piece ∷ pieces) = (c ∷ piece) ∷ pieces

unfoldable pub split_slashes : Text → List Text
split_slashes [] = [] ∷ []
split_slashes (c ∷ s) = let rest = split_slashes s in if c == 47 then [] ∷ rest else to_first c rest

-- A piece that is empty or "." is no component of its own.
unfoldable pub is_component : Text → Bool
is_component piece = not (text_beq piece []) && not (text_beq piece (codes "."))

unfoldable pub keep_components : List Text → List Text
unfolding is_component
keep_components [] = []
keep_components (p ∷ ps) =
    let rest = keep_components ps in if is_component p then p ∷ rest else rest

-- A "." at the beginning of a relative path is a component.
abbrev keep_first : Bool → List Text → List Text
keep_first absolute [] = []
keep_first absolute (p ∷ ps) =
    if not absolute && text_beq p (codes ".")
    then p ∷ keep_components ps
    else keep_components (p ∷ ps)

-- `Path::components`: whether there is a root, and the names.
unfoldable pub components : Text → Bool × List Text
unfolding is_absolute split_slashes keep_components
components path = (is_absolute path, keep_first (is_absolute path) (split_slashes path))

unfoldable pub is_prefix : List Text → List Text → Bool
is_prefix [] ys = true
is_prefix (_ ∷ _) [] = false
is_prefix (x ∷ xs) (y ∷ ys) = text_beq x y && is_prefix xs ys

abbrev pub beq_Bool : Bool → Bool → Bool
beq_Bool true b = b
beq_Bool false b = not b

-- `Path::starts_with` and `PartialEq` compare the components.
unfoldable pub path_starts_with : Text → Text → Bool
unfolding components is_prefix
path_starts_with path base =
    beq_Bool (components path).0 (components base).0
    && is_prefix (components base).1 (components path).1

unfoldable pub path_beq : Text → Text → Bool
unfolding path_starts_with
path_beq a b = path_starts_with a b && path_starts_with b a

abbrev ends_in_slash : Text → Bool
ends_in_slash s = is_absolute (reverse s)

-- `Path::join`: an absolute path replaces.
unfoldable pub join : Text → Text → Text
unfolding is_absolute
join base path =
    if is_absolute path
    then path
    else if text_beq base [] || ends_in_slash base
    then base ++ path
    else base ++ 47 ∷ path

abbrev last_of : List Text → Option Text
last_of [] = none
last_of (x ∷ []) = some x
last_of (x ∷ y ∷ ys) = last_of (y ∷ ys)

-- `Path::file_name`: none where the path ends in "..".
unfoldable pub file_name : Text → Option Text
unfolding components
file_name path = elim (last_of (components path).1) [
  | none ↦ none
  | some n ↦ (if text_beq n (codes "..") || text_beq n (codes ".") then none else some n)
]
