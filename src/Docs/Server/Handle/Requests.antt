-- ===== src/Docs/Server/Handle/Requests.antt =====
-- The requests of the editor (collab_mode/src/server.rs).
use collab_mode.Prelude.{
  Bool, true, false, ◌||◌, Option, none, some, List, [], ◌∷◌, ◌++◌, Text, if◌then◌else◌, ◌>>=◌,
}
use collab_mode.Map.{text_eq, text_beq, lookup, insert}
use collab_mode.Types.{EditorFatOp}
use collab_mode.Types.Files.{
  EditorFileDesc, file_desc_of, Project, reserved_buffers_project, reserved_files_project,
}
use collab_mode.Paths.{is_absolute, join}
use collab_mode.Config.{Permission}
use collab_mode.World.{ConfigProject}
use collab_mode.Docs.{Chunk}
use collab_mode.Docs.Server.{
  io_error, bad_request_error, not_connected, internal_error, OpenMode, make_directory, done,
  initialized, undo_ops, file_named, resp, remote, save_config, Disk, Server, Step,
  check_connection, resend_watch_files, fail,
}
use collab_mode.Docs.Server.Open.{open_file_from_editor}
use collab_mode.Docs.Server.Share.{handle_share_file_from_editor}
use collab_mode.Docs.Server.Close.{handle_close_file_from_editor, handle_disconnect_from_file}
use collab_mode.Docs.Server.Move.{handle_move_file_from_editor}
use collab_mode.Docs.Server.Save.{handle_save_file_from_editor, handle_reset_from_disk_from_editor}
use collab_mode.Docs.Server.Send.{UndoKind, handle_send_ops_from_editor, handle_undo_from_editor}

-- True is `Ok(())`.
unfoldable pub make_directory_on_disk : Disk → Text → Text → Server → Bool
unfolding join
make_directory_on_disk disk id rel_path s =
    if text_beq id reserved_buffers_project || text_beq id reserved_files_project
    then false
    else elim (lookup id s.projects) [
      | none ↦ false
      | some p ↦ disk.dirs_made (join p.root rel_path)
    ]

unfoldable pub make_directory_from_editor : Disk → EditorFileDesc → Server → Step
unfolding make_directory_on_disk file_desc_of
make_directory_from_editor disk desc s =
    if text_beq s.host_id desc.host_id
    then (if make_directory_on_disk disk desc.project_id desc.file s
        then (resp (file_named desc) ∷ [], s)
        else fail io_error s)
    else (remote desc.host_id true (make_directory (file_desc_of desc)) ∷ [], s)

-- `expand_project_paths`; `none` is an error.
unfoldable pub expand_project_paths : Disk → List ConfigProject → Option (List ConfigProject)
unfolding is_absolute
expand_project_paths disk [] = some []
expand_project_paths disk (p ∷ ps) = disk.expanded p.path >>= λ path.
    let rest = expand_project_paths disk ps >>= λ qs. some (record p { path = path } ∷ qs) in
    if is_absolute path then rest else none

unfoldable pub is_reserved : List ConfigProject → Bool
is_reserved [] = false
is_reserved (p ∷ ps) =
    text_beq p.name reserved_buffers_project
    || text_beq p.name reserved_files_project
    || is_reserved ps

unfoldable pub add_projects : List ConfigProject → List (Text × Project) → List (Text × Project)
add_projects [] projects = projects
add_projects (p ∷ ps) projects =
    add_projects ps (insert p.name (record { name = p.name; root = p.path }) projects)

-- The request "DeclareProjects".
unfoldable pub declare_projects : Disk → List ConfigProject → Server → Step
unfolding is_reserved expand_project_paths add_projects
declare_projects disk given s =
    if is_reserved given then fail bad_request_error s else elim (expand_project_paths disk given) [
      | none ↦ fail io_error s
      | some ps ↦ (resp done ∷ [], record s { projects = add_projects ps s.projects })
    ]

-- The file is written after the state; an error of that is answered as an internal one.
unfoldable pub handle_update_config_from_editor :
    List Text → List (Text × Permission) → Server → Step
handle_update_config_from_editor trusted permission s =
    let config = record s.config { trusted_hosts = trusted; permission = permission } in
    (
      save_config config ∷ [],
      record s { config = config; ideal_world = record s.ideal_world { trusted = trusted } },
    )

pub data Request : Type 0 where
  initialize : Request
  open_file : EditorFileDesc → OpenMode → Request
  new_directory : EditorFileDesc → Request
  send_ops_request : List EditorFatOp → EditorFileDesc → Request
  undo_request : UndoKind → EditorFileDesc → Request
  share_file : Text → Text → Request
  update_config : List Text → List (Text × Permission) → Bool → Request
  declare : List ConfigProject → Request
  move_request : Text → Text → Text → Text → Request
  save_request : EditorFileDesc → Request
  reset_request : EditorFileDesc → Request
  leave_request : EditorFileDesc → Request
  close_request : EditorFileDesc → Request
  delete_request : EditorFileDesc → Request

-- A request that needs a connection to the host it is for.
unfoldable pub when_connected : Text → Option Step → Server → Option Step
unfolding check_connection
when_connected host step s = if check_connection host s then step else some (fail not_connected s)

unfoldable pub answer_share : Server → Option Step → Step
unfolding resend_watch_files
answer_share s none = fail internal_error s
answer_share s (some (out, s')) = (out ++ resend_watch_files s' ∷ [], s')

-- The match of `handle_editor_request`, with the answer that `handle_editor_message` gives where it
-- fails. That the file of the configuration was written is the last argument of its request.
module _ (diff : Text → Text → List Chunk) where
  unfoldable pub handle_editor_request : Disk → Request → Server → Option Step
  unfolding when_connected open_file_from_editor make_directory_from_editor
      handle_send_ops_from_editor handle_undo_from_editor handle_share_file_from_editor answer_share
      handle_update_config_from_editor declare_projects handle_move_file_from_editor
      handle_save_file_from_editor handle_reset_from_disk_from_editor handle_disconnect_from_file
      handle_close_file_from_editor resend_watch_files
  handle_editor_request disk initialize s = some (resp (initialized s.host_id) ∷ [], s)
  handle_editor_request disk (open_file desc mode) s =
      when_connected desc.host_id (some (open_file_from_editor disk desc mode s)) s
  handle_editor_request disk (new_directory desc) s =
      when_connected desc.host_id (some (make_directory_from_editor disk desc s)) s
  handle_editor_request disk (send_ops_request ops desc) s = handle_send_ops_from_editor ops desc s
  handle_editor_request disk (undo_request kind desc) s =
      handle_undo_from_editor kind desc s >>= λ r. some (elim r [
        | none ↦ fail internal_error s
        | some (ops, context) ↦ (resp (undo_ops ops context) ∷ [], s)
      ])
  handle_editor_request disk (share_file name content) s =
      some (answer_share s (handle_share_file_from_editor disk name content s))
  handle_editor_request disk (update_config trusted permission written) s =
      let (out, s') = handle_update_config_from_editor trusted permission s in
      some ((out ++ (if written then resp done ∷ [] else (fail internal_error s').0)), s')
  handle_editor_request disk (declare projects) s = some (declare_projects disk projects s)
  handle_editor_request disk (move_request host id old_path new_path) s =
      when_connected host (some (handle_move_file_from_editor disk host id old_path new_path s)) s
  handle_editor_request disk (save_request desc) s =
      when_connected desc.host_id (some (handle_save_file_from_editor disk desc s)) s
  handle_editor_request disk (reset_request desc) s =
      when_connected desc.host_id (handle_reset_from_disk_from_editor diff disk desc s) s
  handle_editor_request disk (leave_request desc) s =
      when_connected desc.host_id (some (handle_disconnect_from_file desc s)) s
  handle_editor_request disk (close_request desc) s =
      some (handle_close_file_from_editor disk desc false s)
  handle_editor_request disk (delete_request desc) s =
      when_connected desc.host_id (some (handle_close_file_from_editor disk desc true s)) s
