-- ===== src/Docs/Server/Move.antt =====
-- Moving files and directories of a project (collab_mode/src/server.rs).
pub mod Laws
use collab_mode.Prelude.{
  ℕ, Bool, true, false, not, Option, none, some, List, [], ◌∷◌, ◌++◌, Text, if◌then◌else◌,
}
use collab_mode.Map.{text_eq, nat_eq, text_beq, lookup, keys}
use collab_mode.Types.Files.{Project}
use collab_mode.Paths.{path_starts_with, path_beq, join}
use collab_mode.Config.{write_allowed}
use collab_mode.Docs.Serve.{Doc, PathId, buffer_id, path_id, permission_denied}
use collab_mode.Docs.Server.{
  io_error, served, move_file, file_moved, error_resp, moved, Out, resp, remote, Disk, Server, Step,
  set_docs, fail,
}
use collab_mode.Docs.Server.Close.{set_insert_all}

-- Where a document stands after the move, if it moves.
unfoldable pub new_place : Disk → Text → Text → Text → Option Text
unfolding path_beq path_starts_with join
new_place disk old new path =
    if path_beq path old
    then some new
    else if path_starts_with path old
    then (elim (disk.diff_paths path old) [ none ↦ none | some rel ↦ some (join new rel) ])
    else none

abbrev put_first : ℕ × Doc → Bool × List (ℕ × Doc) × List Text → Bool × List (ℕ × Doc) × List Text
put_first e (ok, docs, set) = (ok, e ∷ docs, set)

abbrev pub Moving : Type 0
Moving = Bool × List (ℕ × Doc) × List Text

-- The match on the place of a document, where `further` is the rest of the loop; false is the error
-- that a buffer cannot move.
unfoldable pub move_one :
    Disk
    → Text
    → Text
    → ℕ
    → Doc
    → PathId
    → List (ℕ × Doc)
    → List Text
    → (Doc → List Text → Moving)
    → Moving
unfolding new_place
move_one disk old new id doc (buffer_id _) docs set further = (false, (id, doc) ∷ docs, set)
move_one disk old new id doc (path_id path) docs set further = elim (new_place disk old new path) [
  | none ↦ further doc set
  | some place ↦
      further (record doc { abs_filename = path_id place })
        (set_insert_all (keys doc.subscribers) set)
]

-- The loop over the documents, with the hosts to tell. It stops at an error, and the documents
-- before stay as they were written.
unfoldable pub move_docs : Disk → Text → Text → List (ℕ × Doc) → List Text → Moving
unfolding move_one
move_docs disk old new [] set = (true, [], set)
move_docs disk old new ((id, doc) ∷ docs) set =
    move_one disk old new id doc doc.abs_filename docs set
      (λ d set. put_first (id, d) (move_docs disk old new docs set))

-- `none` is an error: no project, the target is there, or the file system refuses.
unfoldable pub moved_paths : Disk → Text → Text → Text → Server → Option (Text × Text)
unfolding join
moved_paths disk id old_path new_path s = elim (lookup id s.projects) [
  | none ↦ none
  | some p ↦
      (let old = join p.root old_path in
        let new = join p.root new_path in
        if disk.exists new
        then none
        else if not (disk.dirs_made new)
        then none
        else if disk.renamed old new
        then some (old, new)
        else none)
]

-- The hosts to tell, or `none` for an error, and the state.
unfoldable pub move_file_on_disk : Disk → Text → Text → Text → Server → Option (List Text) × Server
unfolding moved_paths move_docs
move_file_on_disk disk id old_path new_path s = elim (moved_paths disk id old_path new_path s) [
  | none ↦ (none, s)
  | some (old, new) ↦
      (let (ok, docs, set) = move_docs disk old new s.docs [] in
        ((if ok then some set else none), set_docs docs s))
]

unfoldable pub tell_moved : Text → Text → Text → Text → List Text → List Out
tell_moved own id old_path new_path [] = []
tell_moved own id old_path new_path (host ∷ hosts) =
    let rest = tell_moved own id old_path new_path hosts in
    if text_beq host own then rest else remote host false (file_moved id old_path new_path) ∷ rest

unfoldable pub handle_move_file_from_editor : Disk → Text → Text → Text → Text → Server → Step
unfolding move_file_on_disk tell_moved
handle_move_file_from_editor disk host id old_path new_path s =
    if not (text_beq s.host_id host)
    then (remote host true (move_file id old_path new_path) ∷ [], s)
    else (let (subscribers, s') = move_file_on_disk disk id old_path new_path s in
        elim subscribers [
          | none ↦ fail io_error s'
          | some hosts ↦ (
            resp (moved s.host_id id old_path new_path)
                ∷ tell_moved s.host_id id old_path new_path hosts,
            s',
          )
        ])

-- Every subscriber is told, the one that asked by the answer to its request.
unfoldable pub tell_subscribers : Text → Text → Text → Text → List Text → List Out
tell_subscribers requester id old_path new_path [] = []
tell_subscribers requester id old_path new_path (host ∷ hosts) =
    remote host (text_beq requester host) (file_moved id old_path new_path)
    ∷ tell_subscribers requester id old_path new_path hosts

unfoldable pub handle_move_file : Disk → Text → Text → Text → Text → Server → Step
unfolding move_file_on_disk tell_subscribers
handle_move_file disk id old_path new_path requester s =
    let (subscribers, s') = move_file_on_disk disk id old_path new_path s in
    elim subscribers [
      | none ↦ (remote requester true (error_resp io_error none) ∷ [], s')
      | some hosts ↦ (tell_subscribers requester id old_path new_path hosts, s')
    ]

-- `Msg::MoveFile`
unfoldable pub handle_move_message : Disk → Text → Text → Text → Text → Server → Step
unfolding write_allowed handle_move_file
handle_move_message disk id old_path new_path requester s =
    if write_allowed s.config requester
    then handle_move_file disk id old_path new_path requester s
    else (remote requester true (served permission_denied) ∷ [], s)
