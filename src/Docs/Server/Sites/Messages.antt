-- ===== src/Docs/Server/Sites/Messages.antt =====
-- What the requests of the editor and the messages of other hosts do to the table of site ids.
use collab_mode.Prelude.{ℕ, ◌≡◌, refl, Bool, true, false, Option, none, some, List, Text, arith}
use collab_mode.Map.{text_eq, nat_eq}
use collab_mode.Engine.{OpRecord}
use collab_mode.Types.Files.{EditorFileDesc}
use collab_mode.Engine.Client.{ContextOps}
use collab_mode.World.{ConfigProject}
use collab_mode.Docs.{Chunk}
use collab_mode.Docs.Serve.{permission_denied, bad_request, not_open, doc_fatal, op_from_server}
use collab_mode.Docs.Server.{
  Disk, Msg, served, request_file, snapshot, error_resp, project_refused, missing_req_id,
  make_directory, directory_made, op_from_client, request_ops_after, stop_sending, save_file,
  file_saved, reset_from_disk, move_file, file_moved, close_file, file_deleted, file_closed,
  info_from_client, info_from_server, Server, Step,
}
use collab_mode.Docs.Server.Handle.{
  take_ops, take_request_ops, follow_ops, drop_doc, unsubscribe, handle_remote_message,
}
use collab_mode.Docs.Server.Handle.Requests.{
  Request, initialize, open_file, new_directory, send_ops_request, undo_request, share_file,
  update_config, declare, move_request, save_request, reset_request, leave_request, close_request,
  delete_request, when_connected, make_directory_from_editor, declare_projects, answer_share,
  handle_editor_request,
}
use collab_mode.Docs.Server.Move.{handle_move_file_from_editor, handle_move_message}
use collab_mode.Docs.Server.Save.{handle_save_file_from_editor, handle_save_message}
use collab_mode.Docs.Server.Sites.{
  SameSites, open_file_from_editor-SameSites, share-SameSites, snapshot-SameSites,
  disconnect-SameSites, reset_from_editor-SameSites, reset_message-SameSites, send_ops-SameSites,
  close_from_editor-SameSites, close_from_remote-SameSites,
}

move_from_editor-SameSites :
    (disk : Disk) (host id old_path new_path : Text) (s : Server)
    → SameSites s (handle_move_file_from_editor disk host id old_path new_path s).1
unfolding handle_move_file_from_editor
move_from_editor-SameSites disk host id old_path new_path s = ground arith

move_message-SameSites :
    (disk : Disk) (id old_path new_path host : Text) (s : Server)
    → SameSites s (handle_move_message disk id old_path new_path host s).1
unfolding handle_move_message
move_message-SameSites disk id old_path new_path host s = ground arith

save_from_editor-SameSites :
    (disk : Disk) (desc : EditorFileDesc) (s : Server)
    → SameSites s (handle_save_file_from_editor disk desc s).1
unfolding handle_save_file_from_editor
save_from_editor-SameSites disk desc s = ground arith

save_message-SameSites :
    (disk : Disk) (id : ℕ) (host : Text) (s : Server)
    → SameSites s (handle_save_message disk id host s).1
unfolding handle_save_message
save_message-SameSites disk id host s = ground arith

take_ops-SameSites :
    (ops : ContextOps) (host : Text) (s : Server) (step : Step)
    → take_ops ops host s ≡ some step
    → SameSites s step.1
unfolding take_ops
take_ops-SameSites ops host s step e = ground arith

when_connected-SameSites :
    (host : Text) (result : Option Step) (s : Server) (step : Step)
    → ((step : Step) → result ≡ some step → SameSites s step.1)
    → when_connected host result s ≡ some step
    → SameSites s step.1
unfolding when_connected
when_connected-SameSites host result s step keeps e = ground (arith, keeps step)

directory-SameSites :
    (disk : Disk) (desc : EditorFileDesc) (s : Server)
    → SameSites s (make_directory_from_editor disk desc s).1
unfolding make_directory_from_editor
directory-SameSites disk desc s = ground arith

declare-SameSites :
    (disk : Disk) (projects : List ConfigProject) (s : Server)
    → SameSites s (declare_projects disk projects s).1
unfolding declare_projects
declare-SameSites disk projects s = ground arith

take_request_ops-SameSites :
    (doc after : ℕ) (host : Text) (s : Server) → SameSites s (take_request_ops doc after host s).1
unfolding take_request_ops
take_request_ops-SameSites doc after host s = (refl, refl, refl)

follow_ops-SameSites :
    (doc : ℕ) (ops : List OpRecord) (host : Text) (s : Server)
    → SameSites s (follow_ops doc ops host s).1
unfolding follow_ops
follow_ops-SameSites doc ops host s = (refl, refl, refl)

drop_doc-SameSites : (doc : ℕ) (host : Text) (s : Server) → SameSites s (drop_doc doc host s).1
unfolding drop_doc
drop_doc-SameSites doc host s = (refl, refl, refl)

unsubscribe-SameSites : (doc : ℕ) (host : Text) (s : Server) → SameSites s (unsubscribe doc host s)
unfolding unsubscribe
unsubscribe-SameSites doc host s = ground arith

of_step :
    (s : Server) (made step : Step)
    → SameSites s made.1
    → some made ≡ some step
    → SameSites s step.1
of_step s made step same e = ground arith

answer_share-SameSites :
    (s : Server) (shared : Option Step)
    → ((step : Step) → shared ≡ some step → SameSites s step.1)
    → SameSites s (answer_share s shared).1
unfolding answer_share
answer_share-SameSites s none keeps = (refl, refl, refl)
answer_share-SameSites s (some (out, s')) keeps = keeps (out, s') refl

pub request-SameSites :
    (diff : Text → Text → List Chunk) (disk : Disk) (request : Request) (s : Server) (step : Step)
    → handle_editor_request diff disk request s ≡ some step
    → SameSites s step.1
unfolding handle_editor_request
request-SameSites diff disk initialize s step e = of_step s _ step (refl, refl, refl) e
request-SameSites diff disk (open_file desc mode) s step e =
    when_connected-SameSites desc.host_id _ s step
      (λ made. of_step s _ made (open_file_from_editor-SameSites disk desc mode s)) e
request-SameSites diff disk (new_directory desc) s step e =
    when_connected-SameSites desc.host_id _ s step
      (λ made. of_step s _ made (directory-SameSites disk desc s)) e
request-SameSites diff disk (send_ops_request ops desc) s step e =
    send_ops-SameSites ops desc s step e
request-SameSites diff disk (undo_request kind desc) s step e = ground arith
request-SameSites diff disk (share_file name content) s step e =
    of_step s _ step (answer_share-SameSites s _ (share-SameSites disk name content s)) e
request-SameSites diff disk (update_config trusted permission written) s step e =
    of_step s _ step (refl, refl, refl) e
request-SameSites diff disk (declare projects) s step e =
    of_step s _ step (declare-SameSites disk projects s) e
request-SameSites diff disk (move_request host id old_path new_path) s step e =
    when_connected-SameSites host _ s step
      (λ made. of_step s _ made (move_from_editor-SameSites disk host id old_path new_path s)) e
request-SameSites diff disk (save_request desc) s step e =
    when_connected-SameSites desc.host_id _ s step
      (λ made. of_step s _ made (save_from_editor-SameSites disk desc s)) e
request-SameSites diff disk (reset_request desc) s step e =
    when_connected-SameSites desc.host_id _ s step (reset_from_editor-SameSites diff disk desc s) e
request-SameSites diff disk (leave_request desc) s step e =
    when_connected-SameSites desc.host_id _ s step
      (λ made. of_step s _ made (disconnect-SameSites desc s)) e
request-SameSites diff disk (close_request desc) s step e =
    of_step s _ step (close_from_editor-SameSites disk desc false s) e
request-SameSites diff disk (delete_request desc) s step e =
    when_connected-SameSites desc.host_id _ s step
      (λ made. of_step s _ made (close_from_editor-SameSites disk desc true s)) e

abbrev pub IsOther : Msg → Type 0
IsOther (request_file _ _) = ⊥
IsOther _ = Unit {0}

pub message-SameSites :
    (diff : Text → Text → List Chunk) (disk : Disk) (msg : Msg) (host : Text) (req : Bool)
    (s : Server) (step : Step)
    → IsOther msg
    → handle_remote_message diff disk msg host req s ≡ some step
    → SameSites s step.1
unfolding handle_remote_message
message-SameSites diff disk (request_file desc mode) host req s step other e = absurd other
message-SameSites diff disk (served permission_denied) host req s step other e =
    of_step s _ step (refl, refl, refl) e
message-SameSites diff disk (served (bad_request _)) host req s step other e =
    of_step s _ step (refl, refl, refl) e
message-SameSites diff disk (served (not_open _)) host req s step other e =
    of_step s _ step (refl, refl, refl) e
message-SameSites diff disk (served (doc_fatal doc _ _)) host req s step other e =
    of_step s _ step (drop_doc-SameSites doc host s) e
message-SameSites diff disk (served (op_from_server doc ops)) host req s step other e =
    of_step s _ step (follow_ops-SameSites doc ops host s) e
message-SameSites diff disk (snapshot shot) host true s step other e =
    of_step s _ step (snapshot-SameSites shot host s) e
message-SameSites diff disk (snapshot shot) host false s step other e =
    of_step s _ step (refl, refl, refl) e
message-SameSites diff disk (op_from_client ops) host req s step other e =
    take_ops-SameSites ops host s step e
message-SameSites diff disk (request_ops_after doc after) host req s step other e =
    of_step s _ step (take_request_ops-SameSites doc after host s) e
message-SameSites diff disk (stop_sending doc) host req s step other e =
    of_step s _ step (unsubscribe-SameSites doc host s) e
message-SameSites diff disk (save_file doc) host req s step other e =
    of_step s _ step (save_message-SameSites disk doc host s) e
message-SameSites diff disk (reset_from_disk doc) host req s step other e =
    reset_message-SameSites diff disk doc host s step e
message-SameSites diff disk (move_file id old_path new_path) host req s step other e =
    of_step s _ step (move_message-SameSites disk id old_path new_path host s) e
message-SameSites diff disk (close_file desc delete) host req s step other e =
    of_step s _ step (close_from_remote-SameSites disk desc host delete s) e
message-SameSites diff disk (error_resp code file) host req s step other e =
    of_step s _ step (refl, refl, refl) e
message-SameSites diff disk project_refused host req s step other e =
    of_step s _ step (refl, refl, refl) e
message-SameSites diff disk missing_req_id host req s step other e =
    of_step s _ step (refl, refl, refl) e
message-SameSites diff disk (make_directory desc) host req s step other e =
    of_step s _ step (refl, refl, refl) e
message-SameSites diff disk (directory_made desc) host req s step other e =
    of_step s _ step (refl, refl, refl) e
message-SameSites diff disk (file_saved doc) host req s step other e =
    of_step s _ step (refl, refl, refl) e
message-SameSites diff disk (file_moved id old_path new_path) host req s step other e =
    of_step s _ step (refl, refl, refl) e
message-SameSites diff disk (file_deleted desc) host req s step other e =
    of_step s _ step (refl, refl, refl) e
message-SameSites diff disk (file_closed desc) host req s step other e =
    of_step s _ step (refl, refl, refl) e
message-SameSites diff disk (info_from_client info) host req s step other e =
    of_step s _ step (refl, refl, refl) e
message-SameSites diff disk (info_from_server info) host req s step other e =
    of_step s _ step (refl, refl, refl) e
