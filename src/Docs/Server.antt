-- ===== src/Docs/Server.antt =====
-- The document server (collab_mode/src/server.rs): its state, what it sends and what it asks of the
-- file system.
pub mod Open
pub mod Requested
pub mod Share
pub mod Close
pub mod Move
pub mod Send
pub mod Save
pub mod Handle
pub mod Sites
use collab_mode.Prelude.{
  ℕ, ◌+◌, ◌*◌, ◌^◌, Bool, true, false, not, ◌||◌, Option, none, some, List, [], ◌∷◌, ◌++◌, map,
  Text, if◌then◌else◌,
}
use collab_mode.Map
use collab_mode.Map.{text_eq, nat_eq, text_beq, lookup, insert}
use collab_mode.Types.Files.{
  FileDesc, project, project_file, EditorFileDesc, Project, reserved_buffers_project,
  reserved_files_project,
}
use collab_mode.Types.{EditInstruction, EditorLeanOp}
use collab_mode.Paths.{path_starts_with, path_beq, join}
use collab_mode.InternalDoc.{InternalDoc}
use collab_mode.Engine.{OpRecord, add_u32}
use collab_mode.Engine.Client.{ContextOps}
use collab_mode.Config.{Config}
use collab_mode.World.{WorldState, RemoteStatus}
use collab_mode.World.Events.{remote_connected}
use collab_mode.Docs.Serve.{Doc, PathId, buffer_id, path_id, DocMsg, Hosted}
use collab_mode.Docs.Follow.{Sent}
use collab_mode.Docs.Remote.{RemoteDoc, RemoteDocs, get_by_editor_desc}

pub data ErrorCode : Type 0 where
  io_error bad_request_error not_connected permission_denied_error doc_fatal_error : ErrorCode
  internal_error : ErrorCode

pub data OpenMode : Type 0 where
  open_mode create_mode : OpenMode

pub record NewSnapshot : Type 0 where
  pub content : Text
  pub internal_doc : InternalDoc
  pub name : Text
  pub seq : ℕ
  pub site_id : ℕ
  pub file_desc : FileDesc
  pub doc_id : ℕ

pub record Info : Type 0 where
  pub doc_id : ℕ
  pub sender : Text
  pub value : Text

-- The messages between hosts, without the texts of errors. Those of Docs.Serve stand under
-- `served`.
pub data Msg : Type 0 where
  served : DocMsg → Msg
  request_file : FileDesc → OpenMode → Msg
  snapshot : NewSnapshot → Msg
  error_resp : ErrorCode → Option FileDesc → Msg
  project_refused : Msg
  missing_req_id : Msg
  make_directory : FileDesc → Msg
  directory_made : FileDesc → Msg
  op_from_client : ContextOps → Msg
  request_ops_after : ℕ → ℕ → Msg
  stop_sending : ℕ → Msg
  save_file : ℕ → Msg
  file_saved : ℕ → Msg
  reset_from_disk : ℕ → Msg
  move_file : Text → Text → Text → Msg
  file_moved : Text → Text → Text → Msg
  close_file : FileDesc → Bool → Msg
  file_deleted : FileDesc → Msg
  file_closed : FileDesc → Msg
  info_from_client : Info → Msg
  info_from_server : Info → Msg

-- The answers to the editor.
pub data Resp : Type 0 where
  done : Resp
  file_opened : Text → ℕ → Text → EditorFileDesc → Resp
  ops_sent : List EditorLeanOp → ℕ → ℕ → ℕ → Resp
  undo_ops : List EditInstruction → ℕ → Resp
  file_shared : EditorFileDesc → ℕ → Resp
  file_named : EditorFileDesc → Resp
  moved : Text → Text → Text → Text → Resp
  initialized : Text → Resp

-- What goes out: answers and errors to the editor, messages with or without the id of the request,
-- the paths to watch, and what is written to a file.
pub data Out : Type 0 where
  resp : Resp → Out
  resp_err : ErrorCode → Out
  moved_note : Text → Text → Text → Text → Out
  deleted_note : EditorFileDesc → Out
  closed_note : EditorFileDesc → Out
  info_note : EditorFileDesc → Info → Out
  remote : Text → Bool → Msg → Out
  watch_files : List Text → Out
  -- A text written through the handle of the file that was opened at a path.
  write_file : Text → Text → Out
  save_config : Config → Out
  follow_note : Text → Sent → Out
  error_note : ErrorCode → Option FileDesc → Out

-- The answers of the file system, of `expanduser` and of `pathdiff` during one request, and whether
-- `serde_json` reads a text.
pub record Disk : Type 0 where
  pub exists : Text → Bool
  pub is_dir : Text → Bool
  pub opened : Text → Bool → Bool
  pub is_binary : Text → Bool
  pub content : Text → Option Text
  pub canonical : Text → Option Text
  pub written : Text → Bool
  pub dirs_made : Text → Bool
  pub renamed : Text → Text → Bool
  pub removed : Text → Bool
  pub expanded : Text → Option Text
  pub diff_paths : Text → Text → Option Text
  pub parses : Text → Bool
  pub now : ℕ

pub record Server : Type 0 where
  pub host_id : Text
  pub site_id : ℕ
  pub next_site_id : ℕ
  pub next_doc_id : ℕ
  pub docs : List (ℕ × Doc)
  pub remote_docs : RemoteDocs
  pub projects : List (Text × Project)
  pub site_id_map : List (Text × ℕ)
  pub config : Config
  pub ideal_world : WorldState
  pub current_world : WorldState

-- A handler: what goes out and the state it leaves.
abbrev pub Step : Type 0
Step = List Out × Server

-- `Server::new_with_keycert`
unfoldable pub new_document_server : Text → Config → Server
new_document_server host config = record {
  host_id = host;
  site_id = 0;
  next_site_id = 1;
  next_doc_id = 1;
  docs = [];
  remote_docs = record { docs = []; editor_map = [] };
  projects = [];
  site_id_map = [];
  config = config;
  ideal_world = record { signaling = []; remotes = []; trusted = config.trusted_hosts };
  current_world = record { signaling = []; remotes = []; trusted = [] };
}

abbrev pub hosted : Server → Hosted
hosted s = record { config = s.config; docs = s.docs }

-- `path_id_from_file_desc`; `none` is the error that there is no such project.
unfoldable pub path_id_from_file_desc : FileDesc → Server → Option PathId
unfolding join
path_id_from_file_desc (project id) s = elim (lookup id s.projects) [
  | none ↦ none
  | some p ↦ some (path_id p.root)
]
path_id_from_file_desc (project_file id file) s =
    if text_beq id reserved_buffers_project
    then some (buffer_id file)
    else if text_beq id reserved_files_project
    then some (path_id file)
    else elim (lookup id s.projects) [ none ↦ none | some p ↦ some (path_id (join p.root file)) ]

-- `PartialEq` of `PathId`
unfoldable pub path_id_beq : PathId → PathId → Bool
unfolding path_beq
path_id_beq (buffer_id a) (buffer_id b) = text_beq a b
path_id_beq (path_id a) (path_id b) = path_beq a b
path_id_beq (buffer_id _) (path_id _) = false
path_id_beq (path_id _) (buffer_id _) = false

-- `Doc::matches`
unfoldable pub matches : PathId → Doc → Bool
unfolding path_id_beq
matches path doc = path_id_beq doc.abs_filename path

abbrev pub later {ℓ} : {A : Type ℓ} → A → Option A → Option A
later a none = some a
later a (some b) = some b

-- The loop that looks for an open document; the last one that matches is taken.
unfoldable pub opened_doc : PathId → List (ℕ × Doc) → Option (ℕ × Doc)
unfolding matches
opened_doc path [] = none
opened_doc path ((id, doc) ∷ docs) =
    let rest = opened_doc path docs in if matches path doc then later (id, doc) rest else rest

-- `site_id_of`
unfoldable pub site_id_of : Text → Server → ℕ × Server
site_id_of host s = elim (lookup host s.site_id_map) [
  | some site ↦ (site, s)
  | none ↦ (
    s.next_site_id,
    record s {
      next_site_id = add_u32 s.next_site_id 1;
      site_id_map = insert host s.next_site_id s.site_id_map;
    },
  )
]

-- The paths that `resend_watch_files` sends.
unfoldable pub watched : List (ℕ × Doc) → List Text
watched [] = []
watched ((_, doc) ∷ docs) = elim doc.abs_filename [
  | path_id p ↦ p ∷ watched docs
  | buffer_id _ ↦ watched docs
]

unfoldable pub resend_watch_files : Server → Out
unfolding watched
resend_watch_files s = watch_files (watched s.docs)

-- `check_connection`: what is sent where the host is not connected.
unfoldable pub check_connection : Text → Server → Bool
unfolding remote_connected
check_connection host s =
    if text_beq host s.host_id then true else remote_connected host s.current_world

unfoldable pub get_remote_doc : EditorFileDesc → Server → Option (ℕ × RemoteDoc)
unfolding get_by_editor_desc
get_remote_doc desc s = get_by_editor_desc desc s.remote_docs

abbrev pub set_docs : List (ℕ × Doc) → Server → Server
set_docs docs s = record s { docs = docs }

abbrev pub set_remote : RemoteDocs → Server → Server
set_remote r s = record s { remote_docs = r }

abbrev pub fail : ErrorCode → Server → Step
fail code s = (resp_err code ∷ [], s)
