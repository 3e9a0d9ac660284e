-- ===== src/Docs/Server/Move/Laws.antt =====
-- Where documents stand after a file or a directory was moved.
use collab_mode.Prelude.{
  ℕ, ◌≡◌, ◌⊎◌, refl, ◌++◌, true, false, inl, inr, Option-cases, none, some, List, [], ◌∷◌, Text,
}
use collab_mode.Map.{nat_eq, text_eq, keys}
use collab_mode.Paths.{path_beq, path_starts_with, join}
use collab_mode.World.Fix.{set_insert}
use collab_mode.Docs.Serve.{Doc, PathId, buffer_id, path_id}
use collab_mode.Docs.Server.{Disk, Server, io_error, error_resp, remote}
use collab_mode.Docs.Server.Move.{
  new_place, Moving, move_one, move_docs, moved_paths, move_file_on_disk, put_first,
  handle_move_file,
}

abbrev pub IsFile : PathId → Type 0
IsFile (path_id _) = Unit {0}
IsFile (buffer_id _) = ⊥

-- Where a file at `path` goes when `old` is moved to `new`: to `new` where it is `old` itself, and
-- to the same relative path below `new` where it lies below `old` and `pathdiff` finds that path.
abbrev pub MovesTo : Disk → Text → Text → Text → Text → Type 0
MovesTo disk old new path place =
    ((path_beq path old ≡ true) × (place ≡ new))
    ⊎ ((rel : Text) × (path_beq path old ≡ false)
        × (path_starts_with path old ≡ true)
        × (disk.diff_paths path old ≡ some rel)
        × (place ≡ join new rel))

-- A file that is not `old`, and does not lie below it, or at a place that `pathdiff` does not find.
abbrev pub Stays : Disk → Text → Text → Type 0
Stays disk old path =
    (path_beq path old ≡ false)
    × ((path_starts_with path old ≡ false) ⊎ (disk.diff_paths path old ≡ none))

abbrev pub union : List Text → List Text → List Text
union [] set = set
union (x ∷ xs) set = union xs (set_insert x set)

-- The documents after the move, one by one, and the hosts to tell: `set` and all that subscribe to
-- a document that moves.
pub data Moves (disk : Disk) (old new : Text)
    : List (ℕ × Doc) → List (ℕ × Doc) → List Text → List Text → Type 0 where
  no_more : (set : List Text) → Moves disk old new [] [] set set
  arrives :
      (id : ℕ) (doc : Doc) (path place : Text) (docs docs' : List (ℕ × Doc)) (set hosts : List Text)
      → doc.abs_filename ≡ path_id path
      → MovesTo disk old new path place
      → Moves disk old new docs docs' (union (keys doc.subscribers) set) hosts
      → Moves disk old new
          ((id, doc) ∷ docs)
          ((id, record doc { abs_filename = path_id place }) ∷ docs')
          set
          hosts
  remains :
      (id : ℕ) (doc : Doc) (path : Text) (docs docs' : List (ℕ × Doc)) (set hosts : List Text)
      → doc.abs_filename ≡ path_id path
      → Stays disk old path
      → Moves disk old new docs docs' set hosts
      → Moves disk old new ((id, doc) ∷ docs) ((id, doc) ∷ docs') set hosts

-- What the loop leaves.
abbrev Moved : Disk → Text → Text → List (ℕ × Doc) → List Text → Moving → Type 0
Moved disk old new docs set result =
    (result.0 ≡ true) × Moves disk old new docs result.1 set result.2

-- Whatever a document is, either the loop stops or it goes on to the others.
move_one-stops :
    (disk : Disk) (old new : Text) (id : ℕ) (doc : Doc) (p : PathId) (docs : List (ℕ × Doc))
    (set : List Text) (further : Doc → List Text → Moving)
    → ((d : Doc) (set : List Text) → (further d set).0 ≡ false)
    → (move_one disk old new id doc p docs set further).0 ≡ false
unfolding move_one
move_one-stops disk old new id doc (buffer_id _) docs set further stops = refl
move_one-stops disk old new id doc (path_id path) docs set further stops =
    elim (Option-cases (new_place disk old new path)) [
      | inl e ↦ rw (e, move_one) (stops doc set)
      | inr (place, e) ↦ rw (e, move_one) (stops _ _)
    ]

move_docs-buffer :
    (disk : Disk) (old new : Text) (before : List (ℕ × Doc)) (id : ℕ) (name : Text) (doc : Doc)
    (rest : List (ℕ × Doc)) (set : List Text)
    → doc.abs_filename ≡ buffer_id name
    → (move_docs disk old new (before ++ (id, doc) ∷ rest) set).0 ≡ false
unfolding move_docs
move_docs-buffer disk old new [] id name doc rest set is = unfold move_one in rw (is, move_one) refl
move_docs-buffer disk old new ((k, d) ∷ before) id name doc rest set is =
    move_one-stops disk old new k d d.abs_filename (before ++ (id, doc) ∷ rest) set
      (λ d set. put_first (k, d) (move_docs disk old new (before ++ (id, doc) ∷ rest) set))
      (λ d set. move_docs-buffer disk old new before id name doc rest set is)

-- While a buffer is open, whatever it is, a request of another host to move a file is answered with
-- an error and nobody is told, also where the file system has moved the file.
pub handle_move_file-buffer :
    (disk : Disk) (id old_path new_path old new requester name : Text) (s : Server)
    (before : List (ℕ × Doc)) (at : ℕ) (doc : Doc) (rest : List (ℕ × Doc))
    → moved_paths disk id old_path new_path s ≡ some (old, new)
    → s.docs ≡ before ++ (at, doc) ∷ rest
    → doc.abs_filename ≡ buffer_id name
    → (handle_move_file disk id old_path new_path requester s).0
      ≡ remote requester true (error_resp io_error none) ∷ []
unfolding handle_move_file move_file_on_disk
handle_move_file-buffer disk id old_path new_path old new requester name s before at doc rest moves
      docs is =
    let stops : (move_docs disk old new s.docs []).0 ≡ false =
      rw docs (move_docs-buffer disk old new before at name doc rest [] is) in
    rw (moves, handle_move_file) (rw stops refl)
