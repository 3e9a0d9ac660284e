-- ===== src/Docs/Server/Handle.antt =====
-- The requests of the editor and the messages of other hosts, as far as they concern documents
-- (collab_mode/src/server.rs). `none` is a panic.
pub mod Requests
pub mod Kept
pub mod Harmless
pub mod ReadOnly
pub mod Agreeing
pub mod Tables
use collab_mode.Prelude.{
  ℕ, Bool, true, false, not, Option, none, some, List, [], ◌∷◌, ◌++◌, map, Text, if◌then◌else◌,
  ◌>>=◌,
}
use collab_mode.Map.{text_eq, nat_eq, pair_eq, lookup, insert, remove}
use collab_mode.Types.Files.{FileDesc, project, project_file, new_editor_desc}
use collab_mode.Config.{write_allowed}
use collab_mode.Engine.{OpRecord}
use collab_mode.Engine.Client.{ContextOps}
use collab_mode.Docs.{Chunk}
use collab_mode.Docs.Serve.{
  Doc, DocMsg, Hosted, permission_denied, bad_request, not_open, doc_fatal, op_from_server,
  handle_op_from_client, handle_request_ops,
}
use collab_mode.Docs.Follow.{
  Sent, stop_sending_ops, request_ops, remote_ops_arrived, no_global_seq, handle_op_from_server,
}
use collab_mode.Docs.Remote.{RemoteDoc, remove_remote_doc}
use collab_mode.Docs.Server.{
  io_error, bad_request_error, permission_denied_error, doc_fatal_error, internal_error, ErrorCode,
  OpenMode, NewSnapshot, Info, Msg, served, request_file, snapshot, error_resp, project_refused,
  missing_req_id, make_directory, directory_made, op_from_client, request_ops_after, stop_sending,
  save_file, file_saved, reset_from_disk, move_file, file_moved, close_file, file_deleted,
  file_closed, info_from_client, info_from_server, file_named, moved, Out, resp, resp_err,
  error_note, moved_note, deleted_note, closed_note, info_note, remote, follow_note, Disk, Server,
  Step, hosted, set_docs, set_remote,
}
use collab_mode.Docs.Server.Requested.{handle_request_file, handle_snapshot}
use collab_mode.Docs.Server.Close.{handle_close_file_from_remote}
use collab_mode.Docs.Server.Move.{handle_move_message}
use collab_mode.Docs.Server.Save.{handle_save_message, handle_reset_message}
use collab_mode.Docs.Server.Send.{broadcast_info}
use collab_mode.Docs.Server.Handle.Requests.{make_directory_on_disk}

-- The messages of Docs.Serve, which carry the id of the request.
abbrev serve_out : List (Text × DocMsg) → List Out
serve_out msgs = map (λ m. remote m.0 true (served m.1)) msgs

abbrev follow_out : Text → Sent → Out
follow_out host (stop_sending_ops doc) = remote host true (stop_sending doc)
follow_out host (request_ops doc after) = remote host true (request_ops_after doc after)
follow_out host (remote_ops_arrived seq) = follow_note host (remote_ops_arrived seq)
follow_out host no_global_seq = follow_note host no_global_seq

-- An error is only logged.
unfoldable pub take_ops : ContextOps → Text → Server → Option Step
unfolding handle_op_from_client
take_ops context_ops host s = handle_op_from_client context_ops host (hosted s) >>= λ r.
    some (serve_out r.1, set_docs (r.2).docs s)

unfoldable pub take_request_ops : ℕ → ℕ → Text → Server → Step
unfolding handle_request_ops
take_request_ops doc after host s =
    let (out, after') = handle_request_ops doc after host (hosted s) in
    (serve_out out, set_docs after'.docs s)

unfoldable pub follow_ops : ℕ → List OpRecord → Text → Server → Step
unfolding handle_op_from_server
follow_ops doc ops host s =
    let (out, docs) = handle_op_from_server doc ops host s.remote_docs in
    (map (follow_out host) out, set_remote docs s)

-- `Msg::DocFatal`
unfoldable pub drop_doc : ℕ → Text → Server → Step
unfolding remove_remote_doc
drop_doc doc host s =
    let desc : Option FileDesc = elim (lookup (host, doc) s.remote_docs.docs) [
      | none ↦ none
      | some d ↦ some d.file_desc
    ] in
    (error_note doc_fatal_error desc ∷ [], set_remote (remove_remote_doc host doc s.remote_docs) s)

-- `Msg::StopSendingOps`
unfoldable pub unsubscribe : ℕ → Text → Server → Server
unsubscribe doc host s = elim (lookup doc s.docs) [
  | none ↦ s
  | some d ↦ set_docs (insert doc (record d { subscribers = remove host d.subscribers }) s.docs) s
]

-- The error answers, with and without a request.
abbrev answer_error : Bool → ErrorCode → Option FileDesc → Out
answer_error true code file = resp_err code
answer_error false code file = error_note code file

-- `Msg::MakeDirectory`
unfoldable pub handle_make_directory : Disk → FileDesc → Text → Server → List Out
unfolding make_directory_on_disk write_allowed
handle_make_directory disk (project id) host s =
    if write_allowed s.config host
    then remote host true (error_resp bad_request_error (some (project id))) ∷ []
    else remote host true (served permission_denied) ∷ []
handle_make_directory disk (project_file id file) host s =
    let desc = project_file id file in
    if write_allowed s.config host
    then remote host true (
        if make_directory_on_disk disk id file s
        then directory_made desc
        else error_resp io_error (some desc))
      ∷ []
    else remote host true (served permission_denied) ∷ []

unfoldable pub info_arrived : Disk → Info → Text → Server → List Out
info_arrived disk info host s = elim (lookup (host, info.doc_id) s.remote_docs.docs) [
  | none ↦ remote host true (stop_sending info.doc_id) ∷ []
  | some d ↦
      if disk.parses info.value then info_note (new_editor_desc d.file_desc host) info ∷ [] else []
]

unfoldable pub save_answered : ℕ → Text → Server → List Out
save_answered doc host s = elim (lookup (host, doc) s.remote_docs.docs) [
  | none ↦ []
  | some d ↦ resp (file_named (new_editor_desc d.file_desc host)) ∷ []
]

module _ (diff : Text → Text → List Chunk) where
  -- The messages of Docs.Serve; the rest of them are answers that are not understood.
  abbrev handle_served : DocMsg → Text → Bool → Server → Option Step
  handle_served permission_denied host req s =
      some (answer_error req permission_denied_error none ∷ [], s)
  handle_served (doc_fatal doc _ _) host req s = some (drop_doc doc host s)
  handle_served (op_from_server doc ops) host req s = some (follow_ops doc ops host s)
  handle_served (bad_request _) host req s = some (error_note internal_error none ∷ [], s)
  handle_served (not_open _) host req s = some (error_note internal_error none ∷ [], s)

  -- The match of `handle_remote_message`; `req` is whether the message has the id of a request.
  unfoldable pub handle_remote_message : Disk → Msg → Text → Bool → Server → Option Step
  unfolding take_ops take_request_ops follow_ops drop_doc unsubscribe handle_make_directory
      info_arrived save_answered handle_request_file handle_snapshot handle_close_file_from_remote
      handle_move_message handle_save_message handle_reset_message broadcast_info
  handle_remote_message disk (served msg) host req s = handle_served msg host req s
  handle_remote_message disk (request_file desc mode) host req s = some (
      if req
      then handle_request_file disk desc host mode s
      else (remote host true missing_req_id ∷ [], s))
  handle_remote_message disk (snapshot shot) host req s =
      some (if req then handle_snapshot shot host s else ([], s))
  handle_remote_message disk (error_resp code file) host req s =
      some (answer_error req code file ∷ [], s)
  handle_remote_message disk project_refused host req s =
      some (error_note internal_error none ∷ [], s)
  handle_remote_message disk missing_req_id host req s =
      some (error_note internal_error none ∷ [], s)
  handle_remote_message disk (make_directory desc) host req s =
      some (handle_make_directory disk desc host s, s)
  handle_remote_message disk (directory_made desc) host req s =
      some ((if req then resp (file_named (new_editor_desc desc host)) ∷ [] else []), s)
  handle_remote_message disk (op_from_client ops) host req s = take_ops ops host s
  handle_remote_message disk (request_ops_after doc after) host req s =
      some (take_request_ops doc after host s)
  handle_remote_message disk (stop_sending doc) host req s = some ([], unsubscribe doc host s)
  handle_remote_message disk (save_file doc) host req s = some (handle_save_message disk doc host s)
  handle_remote_message disk (file_saved doc) host req s =
      some ((if req then save_answered doc host s else remote host true missing_req_id ∷ []), s)
  handle_remote_message disk (reset_from_disk doc) host req s =
      handle_reset_message diff disk doc host s
  handle_remote_message disk (move_file id old_path new_path) host req s =
      some (handle_move_message disk id old_path new_path host s)
  handle_remote_message disk (file_moved id old_path new_path) host req s = some (
    (if req then resp (moved host id old_path new_path) else moved_note host id old_path new_path)
        ∷ [],
    s,
  )
  handle_remote_message disk (close_file desc delete) host req s =
      some (handle_close_file_from_remote disk desc host delete s)
  handle_remote_message disk (file_deleted desc) host req s = some (
    (if req
          then resp (file_named (new_editor_desc desc host))
          else deleted_note (new_editor_desc desc host))
        ∷ [],
    s,
  )
  handle_remote_message disk (file_closed desc) host req s =
      some (closed_note (new_editor_desc desc host) ∷ [], s)
  handle_remote_message disk (info_from_client info) host req s =
      some ((elim (broadcast_info info s) [ none ↦ [] | some out ↦ out ]), s)
  handle_remote_message disk (info_from_server info) host req s =
      some (info_arrived disk info host s, s)
