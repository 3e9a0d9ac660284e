-- ===== src/Docs/Server/Handle/Tables.antt =====
-- The tables of the remote documents over the messages of other hosts.
use collab_mode.Prelude.{◌≡◌, Bool, true, false, inl, inr, Bool-cases, none, some, List, Text}
use collab_mode.Map.{nat_eq, text_eq, pair_eq, lookup}
use collab_mode.Types.Files.{editor_desc_eq, new_editor_desc}
use collab_mode.Docs.{Chunk}
use collab_mode.Docs.Remote.Laws.{Agrees, insert_remote_doc-Agrees, remove_remote_doc-Agrees}
use collab_mode.Docs.Serve.{
  DocMsg, permission_denied, bad_request, not_open, doc_fatal, op_from_server,
}
use collab_mode.Docs.Server.{
  Disk, NewSnapshot, Msg, served, request_file, snapshot, error_resp, project_refused,
  missing_req_id, make_directory, directory_made, op_from_client, request_ops_after, stop_sending,
  save_file, file_saved, reset_from_disk, move_file, file_moved, close_file, file_deleted,
  file_closed, info_from_client, info_from_server, Server, Step,
}
use collab_mode.Docs.Server.Requested.{handle_snapshot, is_open_from}
use collab_mode.Docs.Server.Handle.{take_request_ops, follow_ops, drop_doc, handle_remote_message}
use collab_mode.Docs.Server.Handle.Agreeing.{
  same_tables, Agreeing, request_file-same, take_ops-same, unsubscribe-same, save_message-same,
  move_message-same, reset_message-same, close_from_remote-Agreeing, follow-Agrees, of_step,
  of_same,
}

-- The id and the name of a snapshot are in no use.
abbrev pub Fresh : Msg → Text → Server → Type 0
Fresh (snapshot shot) host s =
    (lookup (host, shot.doc_id) s.remote_docs.docs ≡ none)
    × (lookup (new_editor_desc shot.file_desc host) s.remote_docs.editor_map ≡ none)
Fresh _ host s = Unit {0}

snapshot-Agreeing :
    (shot : NewSnapshot) (host : Text) (s : Server)
    → Fresh (snapshot shot) host s
    → Agreeing s (handle_snapshot shot host s)
unfolding handle_snapshot
snapshot-Agreeing shot host s (free, unnamed) ok =
    elim (Bool-cases (is_open_from host shot.file_desc s.remote_docs.docs)) [
      | inl e ↦ rw e ok
      | inr e ↦ rw e (insert_remote_doc-Agrees host shot.doc_id _ s.remote_docs ok free unnamed)
    ]

served-Agreeing :
    (diff : Text → Text → List Chunk) (disk : Disk) (msg : DocMsg) (host : Text) (req : Bool)
    (s : Server) (step : Step)
    → handle_remote_message diff disk (served msg) host req s ≡ some step
    → Agreeing s step
unfolding handle_remote_message follow_ops drop_doc
served-Agreeing diff disk permission_denied host req s step e = of_step s _ step (λ ok. ok) e
served-Agreeing diff disk (bad_request _) host req s step e = of_step s _ step (λ ok. ok) e
served-Agreeing diff disk (not_open _) host req s step e = of_step s _ step (λ ok. ok) e
served-Agreeing diff disk (doc_fatal doc _ _) host req s step e =
    of_step s _ step (remove_remote_doc-Agrees host doc s.remote_docs) e
served-Agreeing diff disk (op_from_server doc ops) host req s step e =
    of_step s _ step (follow-Agrees doc ops host s.remote_docs) e

-- Let the two tables of the remote documents agree: every document is found by its descriptor, and
-- every descriptor finds a document that has it. They agree after every message of another host,
-- whatever the file system answers, where the message does not make the host panic, and the id and
-- the descriptor of a snapshot are in no use.
pub handle_remote_message-Agrees :
    (diff : Text → Text → List Chunk) (disk : Disk) (msg : Msg) (host : Text) (req : Bool)
    (s : Server) (step : Step)
    → Agrees s.remote_docs
    → Fresh msg host s
    → handle_remote_message diff disk msg host req s ≡ some step
    → Agrees step.1.remote_docs
unfolding handle_remote_message take_request_ops
handle_remote_message-Agrees diff disk (served msg) host req s step ok fresh e =
    served-Agreeing diff disk msg host req s step e ok
handle_remote_message-Agrees diff disk (request_file desc mode) host true s step ok fresh e =
    of_same s _ step (request_file-same disk desc host mode s) e ok
handle_remote_message-Agrees diff disk (request_file desc mode) host false s step ok fresh e =
    of_step s _ step (λ ok. ok) e ok
handle_remote_message-Agrees diff disk (snapshot shot) host true s step ok fresh e =
    of_step s _ step (snapshot-Agreeing shot host s fresh) e ok
handle_remote_message-Agrees diff disk (snapshot shot) host false s step ok fresh e =
    of_step s _ step (λ ok. ok) e ok
handle_remote_message-Agrees diff disk (op_from_client ops) host req s step ok fresh e =
    same_tables s step (take_ops-same ops host s step e) ok
handle_remote_message-Agrees diff disk (request_ops_after doc after) host req s step ok fresh e =
    of_step s _ step (λ ok. ok) e ok
handle_remote_message-Agrees diff disk (stop_sending doc) host req s step ok fresh e =
    of_same s _ step (unsubscribe-same doc host s) e ok
handle_remote_message-Agrees diff disk (save_file doc) host req s step ok fresh e =
    of_same s _ step (save_message-same disk doc host s) e ok
handle_remote_message-Agrees diff disk (reset_from_disk doc) host req s step ok fresh e =
    same_tables s step (reset_message-same diff disk doc host s step e) ok
handle_remote_message-Agrees diff disk (move_file id old_path new_path) host req s step ok fresh e =
    of_same s _ step (move_message-same disk id old_path new_path host s) e ok
handle_remote_message-Agrees diff disk (close_file desc delete) host req s step ok fresh e =
    of_step s _ step (close_from_remote-Agreeing disk desc host delete s) e ok
handle_remote_message-Agrees diff disk (error_resp code file) host req s step ok fresh e =
    of_step s _ step (λ ok. ok) e ok
handle_remote_message-Agrees diff disk project_refused host req s step ok fresh e =
    of_step s _ step (λ ok. ok) e ok
handle_remote_message-Agrees diff disk missing_req_id host req s step ok fresh e =
    of_step s _ step (λ ok. ok) e ok
handle_remote_message-Agrees diff disk (make_directory desc) host req s step ok fresh e =
    of_step s _ step (λ ok. ok) e ok
handle_remote_message-Agrees diff disk (directory_made desc) host req s step ok fresh e =
    of_step s _ step (λ ok. ok) e ok
handle_remote_message-Agrees diff disk (file_saved doc) host req s step ok fresh e =
    of_step s _ step (λ ok. ok) e ok
handle_remote_message-Agrees diff disk (file_moved id old_path new_path) host req s step ok fresh
      e =
    of_step s _ step (λ ok. ok) e ok
handle_remote_message-Agrees diff disk (file_deleted desc) host req s step ok fresh e =
    of_step s _ step (λ ok. ok) e ok
handle_remote_message-Agrees diff disk (file_closed desc) host req s step ok fresh e =
    of_step s _ step (λ ok. ok) e ok
handle_remote_message-Agrees diff disk (info_from_client info) host req s step ok fresh e =
    of_step s _ step (λ ok. ok) e ok
handle_remote_message-Agrees diff disk (info_from_server info) host req s step ok fresh e =
    of_step s _ step (λ ok. ok) e ok
