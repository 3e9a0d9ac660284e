-- ===== src/Docs/Server/Handle/ReadOnly.antt =====
-- What a host that may not write can do to the documents and files of another one.
use collab_mode.Prelude.{
  ℕ, ◌≡◌, refl, Bool, true, false, inl, inr, Option-cases, Option, none, some, List, [], Text, All,
}
use collab_mode.Map.{nat_eq, text_eq, pair_eq, lookup}
use collab_mode.Types.Files.{FileDesc, project}
use collab_mode.Config.{write_allowed, delete_allowed}
use collab_mode.Engine.{OpRecord}
use collab_mode.Engine.Client.{ContextOps}
use collab_mode.Docs.{Chunk}
use collab_mode.Docs.Serve.{
  DocMsg, permission_denied, bad_request, not_open, doc_fatal, op_from_server,
  handle_op_from_client,
}
use collab_mode.Docs.Follow.{handle_op_from_server}
use collab_mode.Docs.Server.{
  Info, Msg, served, request_file, snapshot, error_resp, project_refused, missing_req_id,
  make_directory, directory_made, op_from_client, request_ops_after, stop_sending, save_file,
  file_saved, reset_from_disk, move_file, file_moved, close_file, file_deleted, file_closed,
  info_from_client, info_from_server, Out, Disk, Server, Step,
}
use collab_mode.Docs.Server.Close.{handle_close_file_from_remote}
use collab_mode.Docs.Server.Move.{handle_move_message}
use collab_mode.Docs.Server.Save.{handle_save_message, handle_reset_message}
use collab_mode.Docs.Server.Send.{broadcast_info}
use collab_mode.Docs.Server.Handle.{
  take_ops, follow_ops, drop_doc, handle_served, handle_remote_message,
}
use collab_mode.Docs.Server.Handle.Kept.{
  Kept, IsMessage, Kept-self, follow_out-IsMessage, tell_except-IsMessage, unsubscribe-Kept,
  take_request_ops-Kept, take_request_ops-IsMessage,
}
use collab_mode.Docs.Server.Handle.Harmless.{
  Harmless, handle_request_file-Harmless, handle_snapshot-Harmless, make_directory-IsMessage,
  save_answered-IsMessage, info_arrived-IsMessage,
}

-- The call neither panics nor writes a text to a file, and every document that was there is there still,
-- with the same text, history and place.
abbrev pub Untouched : Server → Option Step → Type 0
Untouched s result =
    (step : Step) × (result ≡ some step) × All IsMessage step.0 × Kept s.docs step.1.docs

module _ (diff : Text → Text → List Chunk) (disk : Disk) (host : Text) (s : Server)
    (read_only : write_allowed s.config host ≡ false) (keeps : delete_allowed s.config host ≡ false)
    (free : lookup s.next_doc_id s.docs ≡ none) where
  quiet : (out : List Out) → All IsMessage out → Untouched s (some (out, s))
  quiet out messages = ((out, s), refl, messages, Kept-self s.docs)

  harmless : (step : Step) → Harmless s step → Untouched s (some step)
  harmless step (messages, kept) = (step, refl, messages, kept)

  take_ops-Untouched : (ops : ContextOps) → Untouched s (take_ops ops host s)
  unfolding take_ops handle_op_from_client
  take_ops-Untouched ops = rw read_only (_, refl, (tt, tt), Kept-self s.docs)

  follow_ops-Untouched :
      (doc : ℕ) (ops : List OpRecord) → Untouched s (some (follow_ops doc ops host s))
  unfolding follow_ops
  follow_ops-Untouched doc ops = (
    follow_ops doc ops host s,
    refl,
    follow_out-IsMessage host (handle_op_from_server doc ops host s.remote_docs).0,
    Kept-self s.docs,
  )

  served-Untouched : (msg : DocMsg) (req : Bool) → Untouched s (handle_served diff msg host req s)
  unfolding drop_doc
  served-Untouched permission_denied true = quiet _ (tt, tt)
  served-Untouched permission_denied false = quiet _ (tt, tt)
  served-Untouched (bad_request _) req = quiet _ (tt, tt)
  served-Untouched (not_open _) req = quiet _ (tt, tt)
  served-Untouched (doc_fatal doc _ _) req = (drop_doc doc host s, refl, (tt, tt), Kept-self s.docs)
  served-Untouched (op_from_server doc ops) req = follow_ops-Untouched doc ops

  broadcast-Untouched :
      (info : Info)
      → Untouched s (some ((elim (broadcast_info info s) [ none ↦ [] | some out ↦ out ]), s))
  unfolding broadcast_info
  broadcast-Untouched info = elim (Option-cases (lookup info.doc_id s.docs)) [
    | inl e ↦ rw (e, broadcast_info) (quiet [] tt)
    | inr (doc, e) ↦
        rw (e, broadcast_info) (quiet _ (tell_except-IsMessage info.sender info doc.subscribers))
  ]

  refused-Untouched :
      (doc : ℕ) (id old_path new_path : Text) (desc : FileDesc) (delete : Bool)
      → Untouched s (some (handle_save_message disk doc host s))
        × Untouched s (handle_reset_message diff disk doc host s)
        × Untouched s (some (handle_move_message disk id old_path new_path host s))
        × Untouched s (some (handle_close_file_from_remote disk desc host delete s))
  unfolding handle_save_message handle_reset_message handle_move_message
      handle_close_file_from_remote
  refused-Untouched doc id old_path new_path desc delete = (
    rw read_only (quiet _ (tt, tt)),
    rw read_only (quiet _ (tt, tt)),
    rw read_only (quiet _ (tt, tt)),
    rw keeps (quiet _ (tt, tt)),
  )

-- A message of a host that may neither write nor delete, whatever it is and whatever the file system
-- answers, does not make this host panic, writes no text to a file, and leaves every document that
-- is open, with its text, its history and its place, provided that the next document id is free.
pub handle_remote_message-Untouched :
    (diff : Text → Text → List Chunk) (disk : Disk) (msg : Msg) (host : Text) (req : Bool)
    (s : Server)
    → write_allowed s.config host ≡ false
    → delete_allowed s.config host ≡ false
    → lookup s.next_doc_id s.docs ≡ none
    → Untouched s (handle_remote_message diff disk msg host req s)
unfolding handle_remote_message
handle_remote_message-Untouched diff disk (served msg) host req s r k f =
    served-Untouched diff disk host s r k f msg req
handle_remote_message-Untouched diff disk (request_file desc mode) host true s r k f =
    harmless diff disk host s r k f _ (handle_request_file-Harmless disk desc host mode s f)
handle_remote_message-Untouched diff disk (request_file desc mode) host false s r k f =
    quiet diff disk host s r k f _ (tt, tt)
handle_remote_message-Untouched diff disk (snapshot shot) host true s r k f =
    harmless diff disk host s r k f _ (handle_snapshot-Harmless shot host s)
handle_remote_message-Untouched diff disk (snapshot shot) host false s r k f =
    quiet diff disk host s r k f _ tt
handle_remote_message-Untouched diff disk (error_resp code file) host true s r k f =
    quiet diff disk host s r k f _ (tt, tt)
handle_remote_message-Untouched diff disk (error_resp code file) host false s r k f =
    quiet diff disk host s r k f _ (tt, tt)
handle_remote_message-Untouched diff disk project_refused host req s r k f =
    quiet diff disk host s r k f _ (tt, tt)
handle_remote_message-Untouched diff disk missing_req_id host req s r k f =
    quiet diff disk host s r k f _ (tt, tt)
handle_remote_message-Untouched diff disk (make_directory desc) host req s r k f =
    quiet diff disk host s r k f _ (make_directory-IsMessage disk desc host s r)
handle_remote_message-Untouched diff disk (directory_made desc) host true s r k f =
    quiet diff disk host s r k f _ (tt, tt)
handle_remote_message-Untouched diff disk (directory_made desc) host false s r k f =
    quiet diff disk host s r k f _ tt
handle_remote_message-Untouched diff disk (op_from_client ops) host req s r k f =
    take_ops-Untouched diff disk host s r k f ops
handle_remote_message-Untouched diff disk (request_ops_after doc after) host req s r k f =
    harmless diff disk host s r k f _
      (take_request_ops-IsMessage doc after host s, take_request_ops-Kept doc after host s)
handle_remote_message-Untouched diff disk (stop_sending doc) host req s r k f =
    harmless diff disk host s r k f _ (tt, unsubscribe-Kept doc host s)
handle_remote_message-Untouched diff disk (save_file doc) host req s r k f =
    (refused-Untouched diff disk host s r k f doc [] [] [] (project []) false).0
handle_remote_message-Untouched diff disk (file_saved doc) host true s r k f =
    quiet diff disk host s r k f _ (save_answered-IsMessage doc host s)
handle_remote_message-Untouched diff disk (file_saved doc) host false s r k f =
    quiet diff disk host s r k f _ (tt, tt)
handle_remote_message-Untouched diff disk (reset_from_disk doc) host req s r k f =
    (refused-Untouched diff disk host s r k f doc [] [] [] (project []) false).1
handle_remote_message-Untouched diff disk (move_file id old_path new_path) host req s r k f =
    (refused-Untouched diff disk host s r k f 0 id old_path new_path (project []) false).2
handle_remote_message-Untouched diff disk (file_moved id old_path new_path) host true s r k f =
    quiet diff disk host s r k f _ (tt, tt)
handle_remote_message-Untouched diff disk (file_moved id old_path new_path) host false s r k f =
    quiet diff disk host s r k f _ (tt, tt)
handle_remote_message-Untouched diff disk (close_file desc delete) host req s r k f =
    (refused-Untouched diff disk host s r k f 0 [] [] [] desc delete).3
handle_remote_message-Untouched diff disk (file_deleted desc) host true s r k f =
    quiet diff disk host s r k f _ (tt, tt)
handle_remote_message-Untouched diff disk (file_deleted desc) host false s r k f =
    quiet diff disk host s r k f _ (tt, tt)
handle_remote_message-Untouched diff disk (file_closed desc) host req s r k f =
    quiet diff disk host s r k f _ (tt, tt)
handle_remote_message-Untouched diff disk (info_from_client info) host req s r k f =
    broadcast-Untouched diff disk host s r k f info
handle_remote_message-Untouched diff disk (info_from_server info) host req s r k f =
    quiet diff disk host s r k f _ (info_arrived-IsMessage disk info host s)
