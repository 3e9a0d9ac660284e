-- ===== src/Docs/Server/Open.antt =====
-- Opening files for the editor and for other hosts (collab_mode/src/server.rs).
pub mod Bytes
pub mod Anywhere
use collab_mode.Prelude.{
  ℕ, ◌+◌, ltb, Bool, true, false, not, ◌&&◌, Option, none, some, [], ◌∷◌, Text, if◌then◌else◌,
}
use collab_mode.Map.{text_eq, nat_eq, text_beq, lookup, insert}
use collab_mode.Types.Files.{
  FileDesc, project, EditorFileDesc, file_desc_of, is_project, reserved_buffers_project,
  reserved_files_project,
}
use collab_mode.Paths.{join, file_name}
use collab_mode.InternalDoc.{new}
use collab_mode.Engine.{add_u32}
use collab_mode.Engine.Server.{ServerEngine, new_server}
use collab_mode.Engine.Client.{new_client}
use collab_mode.Docs.Serve.{Doc, PathId, buffer_id, path_id}
use collab_mode.Docs.Remote.{RemoteDoc, RemoteDocs, get_by_editor_desc, insert_remote_doc}
use collab_mode.Docs.Server.{
  io_error, bad_request_error, OpenMode, open_mode, create_mode, request_file, file_opened, resp,
  remote, Disk, Server, Step, path_id_from_file_desc, opened_doc, resend_watch_files,
  get_remote_doc, fail,
}

-- `String::len`: the number of bytes in UTF-8.
unfoldable pub byte_len : Text → ℕ
byte_len [] = 0
byte_len (c ∷ s) =
    (if ltb c 128 then 1 else if ltb c 2048 then 2 else if ltb c 65536 then 3 else 4) + byte_len s

-- `Doc::new`
unfoldable pub new_doc : Disk → Text → PathId → FileDesc → Text → ServerEngine → Option Text → Doc
new_doc disk name filename desc content engine disk_file = record {
  name = name;
  abs_filename = filename;
  canon_filename = elim filename [ path_id p ↦ disk.canonical p | buffer_id _ ↦ none ];
  file_desc = desc;
  disk_file = disk_file;
  engine = engine;
  buffer = content;
  subscribers = [];
  last_saved_at = disk.now;
  next_external_site_seq = 1;
}

pub data Opened : Type 0 where
  denied : Opened
  failed : Opened
  opened : Text → Text → Opened

-- The path that a file of a project stands at; none where there is no such project.
unfoldable pub full_path : Text → Text → Server → Option Text
unfolding join
full_path project_id rel_path s =
    if text_beq project_id reserved_files_project
    then some rel_path
    else elim (lookup project_id s.projects) [ none ↦ none | some p ↦ some (join p.root rel_path) ]

abbrev pub is_create : OpenMode → Bool
is_create create_mode = true
is_create open_mode = false

-- Opening and reading the file at a path.
unfoldable pub read_file : Disk → Text → OpenMode → Bool → Opened
read_file disk path mode create_ok =
    if is_create mode && (not create_ok && not (disk.exists path))
    then denied
    else if not (disk.opened path (is_create mode && create_ok))
    then failed
    else if disk.is_binary path
    then failed
    else elim (disk.content path) [ none ↦ failed | some content ↦ opened content path ]

unfoldable pub open_file_from_disk : Disk → Text → Text → OpenMode → Bool → Server → Opened
unfolding full_path read_file
open_file_from_disk disk project_id rel_path mode create_ok s =
    if text_beq project_id reserved_buffers_project
    then failed
    else elim (full_path project_id rel_path s) [
      | none ↦ failed
      | some path ↦ read_file disk path mode create_ok
    ]

abbrev pub name_or : Text → Option Text → Text
name_or file none = file
name_or file (some name) = name

-- The document made of a file that was read, with its id.
unfoldable pub add_doc : Disk → Text → FileDesc → Text → Text → Server → (ℕ × Doc) × Server
unfolding new_doc byte_len new_server file_name
add_doc disk file desc content path s =
    let doc =
      new_doc disk (name_or file (file_name file)) (path_id path) desc content
        (new_server (byte_len content)) (some path) in
    (
      (s.next_doc_id, doc),
      record s { next_doc_id = add_u32 s.next_doc_id 1; docs = insert s.next_doc_id doc s.docs },
    )

-- The remote document that this host keeps of its own document for its editor.
unfoldable pub own_remote_doc : FileDesc → Doc → Server → RemoteDoc
unfolding new_client
own_remote_doc desc doc s = record {
  name = doc.name;
  file_desc = desc;
  next_site_seq = 1;
  remote_op_buffer = [];
  engine = new_client s.site_id doc.engine.current_seq doc.engine.internal_doc;
  buffer = doc.buffer;
}

-- What follows when the document is there: subscribe, and keep a remote document of it.
unfoldable pub open_own : EditorFileDesc → ℕ → Doc → Server → Step
unfolding own_remote_doc get_by_editor_desc insert_remote_doc file_desc_of resend_watch_files
open_own desc doc_id doc s =
    let docs' =
      insert doc_id (record doc { subscribers = insert s.host_id 0 doc.subscribers }) s.docs in
    let remote' : RemoteDocs = elim (get_by_editor_desc desc s.remote_docs) [
      | some _ ↦ s.remote_docs
      | none ↦
          insert_remote_doc s.host_id doc_id (own_remote_doc (file_desc_of desc) doc s) desc
            s.remote_docs
    ] in
    let s' = record s { docs = docs'; remote_docs = remote' } in
    (resp (file_opened doc.buffer s.site_id doc.name desc) ∷ resend_watch_files s' ∷ [], s')

-- The branch for a file of this host.
unfoldable pub open_local : Disk → EditorFileDesc → OpenMode → Server → Step
unfolding file_desc_of path_id_from_file_desc opened_doc open_file_from_disk add_doc open_own
    is_project
open_local disk desc mode s =
    if is_project desc
    then fail bad_request_error s
    else elim (path_id_from_file_desc (file_desc_of desc) s) [
      | none ↦ fail io_error s
      | some path ↦ elim (opened_doc path s.docs) [
        | some found ↦ open_own desc found.0 found.1 s
        | none ↦ elim (open_file_from_disk disk desc.project_id desc.file mode true s) [
          | denied ↦ fail io_error s
          | failed ↦ fail io_error s
          | opened content full ↦
              (let (made, s') = add_doc disk desc.file (file_desc_of desc) content full s in
                open_own desc made.0 made.1 s')
        ]
      ]
    ]

unfoldable pub open_file_from_editor : Disk → EditorFileDesc → OpenMode → Server → Step
unfolding open_local get_remote_doc file_desc_of
open_file_from_editor disk desc mode s =
    if text_beq s.host_id desc.host_id
    then open_local disk desc mode s
    else elim (get_remote_doc desc s) [
      | some found ↦
          (resp (file_opened (found.1).buffer (found.1).engine.site_id (found.1).name desc) ∷ [], s)
      | none ↦ (remote desc.host_id true (request_file (file_desc_of desc) mode) ∷ [], s)
    ]
