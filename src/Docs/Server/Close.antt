-- ===== src/Docs/Server/Close.antt =====
-- Closing and deleting files, and leaving documents of other hosts (collab_mode/src/server.rs).
pub mod Laws
pub mod Absolute
use collab_mode.Prelude.{
  ℕ, ◌+◌, ◌*◌, ◌^◌, Bool, true, false, not, ◌&&◌, ◌||◌, Option, none, some, List, [], ◌∷◌, ◌++◌,
  Text, if◌then◌else◌,
}
use collab_mode.Map.{text_eq, nat_eq, text_beq, lookup, insert, remove, keys}
use collab_mode.Types.Files.{
  FileDesc, project, project_file, EditorFileDesc, Project, file_desc_of, reserved_buffers_project,
  reserved_files_project,
}
use collab_mode.Paths.{path_starts_with, path_beq, join}
use collab_mode.World.Fix.{set_insert}
use collab_mode.Config.{delete_allowed}
use collab_mode.Docs.Serve.{Doc, PathId, buffer_id, path_id, permission_denied}
use collab_mode.Docs.Remote.{remove_remote_doc, remove_by_editor_desc}
use collab_mode.Docs.Server.{
  io_error, served, close_file, file_deleted, file_closed, stop_sending, error_resp, done, Out,
  resp, remote, write_file, Msg, Disk, Server, Step, path_id_from_file_desc, resend_watch_files,
  get_remote_doc, set_remote, fail,
}
use collab_mode.Docs.Server.Requested.{first_match}

-- `Doc::save_to_disk`: what is written, whether that went well, and the document.
unfoldable pub save_to_disk : Disk → Doc → List Out × Bool × Doc
save_to_disk disk doc = elim doc.disk_file [
  | none ↦ ([], true, doc)
  | some path ↦ (
    write_file path doc.buffer ∷ [],
    disk.written path,
    (if disk.written path then record doc { last_saved_at = disk.now + 100 * 10 ^ 6 } else doc),
  )
]

-- What is to be closed: the ids, the path, and the hosts to tell.
pub record Closing : Type 0 where
  pub ids : List ℕ
  pub path : Option Text
  pub subscribers : List Text

abbrev pub set_insert_all : List Text → List Text → List Text
set_insert_all [] set = set
set_insert_all (x ∷ xs) set = set_insert_all xs (set_insert x set)

abbrev pub is_under : Text → PathId → Bool
is_under path (path_id p) = path_starts_with p path
is_under path (buffer_id _) = false

-- The loop over the documents below a path.
unfoldable pub docs_under : Text → List (ℕ × Doc) → List Text → List ℕ × List Text
unfolding path_starts_with
docs_under path [] set = ([], set)
docs_under path ((id, doc) ∷ docs) set =
    let here = is_under path doc.abs_filename in
    let rest =
      docs_under path docs (if here then set_insert_all (keys doc.subscribers) set else set) in
    ((if here then id ∷ rest.0 else rest.0), rest.1)

unfoldable pub closing_under : Text → Server → Closing
unfolding docs_under
closing_under path s =
    let found = docs_under path s.docs [] in
    record { ids = found.0; path = some path; subscribers = found.1 }

abbrev pub path_of : PathId → Option Text
path_of (path_id p) = some p
path_of (buffer_id _) = none

-- A buffer, or a file in no project.
unfoldable pub closing_single : FileDesc → Server → Option Closing
unfolding path_id_from_file_desc first_match
closing_single desc s = elim (path_id_from_file_desc desc s) [
  | none ↦ none
  | some path ↦ elim (first_match path s.docs) [
    | none ↦ some (record { ids = []; path = none; subscribers = [] })
    | some found ↦ some (record {
      ids = found.0 ∷ [];
      path = path_of (found.1).abs_filename;
      subscribers = keys (found.1).subscribers;
    })
  ]
]

-- `none` is the error that there is no such project.
unfoldable pub find_docs_and_path_to_delete : FileDesc → Server → Option Closing
unfolding closing_under closing_single join
find_docs_and_path_to_delete (project id) s = elim (lookup id s.projects) [
  | none ↦ none
  | some p ↦ some (closing_under p.root s)
]
find_docs_and_path_to_delete (project_file id file) s =
    if text_beq id reserved_buffers_project || text_beq id reserved_files_project
    then closing_single (project_file id file) s
    else elim (lookup id s.projects) [
      | none ↦ none
      | some p ↦ some (closing_under (join p.root file) s)
    ]

-- The loop that saves and removes the documents.
unfoldable pub remove_docs : Disk → List ℕ → Server → Step
unfolding save_to_disk remove_remote_doc
remove_docs disk [] s = ([], s)
remove_docs disk (id ∷ ids) s =
    let written : List Out = elim (lookup id s.docs) [
      | none ↦ []
      | some doc ↦ (save_to_disk disk doc).0
    ] in
    let (out, s') = remove_docs disk ids (record s {
      docs = remove id s.docs;
      remote_docs = remove_remote_doc s.host_id id s.remote_docs;
    }) in
    (written ++ out, s')

-- Whether the file or the directory is gone.
unfoldable pub delete_path : Disk → Option Text → Bool
delete_path disk none = true
delete_path disk (some path) =
    if disk.is_dir path || disk.exists path then disk.removed path else true

-- `handle_close_file_locally`: the hosts to tell, or `none` for an error.
unfoldable pub handle_close_file_locally :
    Disk → FileDesc → Bool → Server → Option (List Text) × List Out × Server
unfolding find_docs_and_path_to_delete remove_docs delete_path resend_watch_files
handle_close_file_locally disk file delete s = elim (find_docs_and_path_to_delete file s) [
  | none ↦ (none, [], s)
  | some closing ↦
      (let (out, s') = remove_docs disk closing.ids s in
        if delete && not (delete_path disk closing.path)
        then (none, out, s')
        else (some closing.subscribers, out ++ resend_watch_files s' ∷ [], s'))
]

abbrev pub gone : FileDesc → Bool → Msg
gone file delete = if delete then file_deleted file else file_closed file

-- The messages to the other subscribers.
unfoldable pub tell_others : Text → Msg → List Text → List Out
tell_others own msg [] = []
tell_others own msg (host ∷ hosts) =
    let rest = tell_others own msg hosts in
    if text_beq host own then rest else remote host false msg ∷ rest

-- The answer to the editor, and the messages to the subscribers.
unfoldable pub answer_closed : Text → Msg → Option (List Text) × List Out × Server → Step
unfolding tell_others
answer_closed own msg (none, out, s) = (out ++ (fail io_error s).0, s)
answer_closed own msg (some hosts, out, s) = (out ++ resp done ∷ tell_others own msg hosts, s)

unfoldable pub handle_close_file_from_editor : Disk → EditorFileDesc → Bool → Server → Step
unfolding file_desc_of handle_close_file_locally answer_closed
handle_close_file_from_editor disk desc delete s =
    let file = file_desc_of desc in
    if not (text_beq desc.host_id s.host_id)
    then (remote desc.host_id true (close_file file delete) ∷ [], s)
    else answer_closed s.host_id (gone file delete) (handle_close_file_locally disk file delete s)

-- The loop over the subscribers: the host that asked gets the answer to its request.
unfoldable pub tell_with_requester : Text → Text → Msg → List Text → List Out × Bool
tell_with_requester own requester msg [] = ([], false)
tell_with_requester own requester msg (host ∷ hosts) =
    let (rest, notified) = tell_with_requester own requester msg hosts in
    if text_beq host requester
    then (remote host true msg ∷ rest, true)
    else if text_beq host own
    then (rest, notified)
    else (remote host false msg ∷ rest, notified)

-- The messages to the subscribers, and the answer to the host that asked.
unfoldable pub answer_requester :
    Text → Text → FileDesc → Bool → Option (List Text) × List Out × Server → Step
unfolding tell_with_requester
answer_requester own requester file delete (none, out, s) =
    (out ++ remote requester true (error_resp io_error (some file)) ∷ [], s)
answer_requester own requester file delete (some hosts, out, s) =
    let (told, notified) = tell_with_requester own requester (gone file delete) hosts in
    (out ++ (told ++ (if notified then [] else remote requester true (gone file delete) ∷ [])), s)

unfoldable pub handle_close_file_from_remote : Disk → FileDesc → Text → Bool → Server → Step
unfolding delete_allowed handle_close_file_locally answer_requester
handle_close_file_from_remote disk file requester delete s =
    if not (delete_allowed s.config requester)
    then (remote requester true (served permission_denied) ∷ [], s)
    else answer_requester s.host_id requester file delete
        (handle_close_file_locally disk file delete s)

unfoldable pub handle_disconnect_from_file : EditorFileDesc → Server → Step
unfolding get_remote_doc remove_by_editor_desc
handle_disconnect_from_file desc s = elim (get_remote_doc desc s) [
  | none ↦ (resp done ∷ [], s)
  | some found ↦ (
    remote desc.host_id true (stop_sending found.0) ∷ resp done ∷ [],
    set_remote (remove_by_editor_desc desc s.remote_docs) s,
  )
]
