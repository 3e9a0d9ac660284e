-- ===== src/Docs/Server/Send.antt =====
-- The editor's operations on a document, undo and redo, and passing information on
-- (collab_mode/src/server.rs).
use collab_mode.Prelude.{
  ℕ, Bool, true, false, Option, none, some, List, [], ◌∷◌, ◌++◌, Text, length, if◌then◌else◌, ◌>>=◌,
}
use collab_mode.Map.{text_eq, nat_eq, text_beq, lookup}
use collab_mode.Types.{EditInstruction, EditorFatOp, EditorLeanOp}
use collab_mode.Types.Files.{EditorFileDesc}
use collab_mode.Engine.{OpRecord, ok, err, add_u32}
use collab_mode.Engine.Client.{maybe_package_local_ops, pending_local_ops}
use collab_mode.Engine.Client.Local.{process_local_op}
use collab_mode.Engine.Client.Remote.{process_remote_op}
use collab_mode.Engine.Client.Undo.{generate_undo_op, generate_redo_op}
use collab_mode.Docs.Remote.{
  RemoteDoc, apply_edit_instruction_unchecked, apply_edit_instruction, verify_buffer_engine_sync,
  write_remote_doc, remove_remote_doc,
}
use collab_mode.Docs.Server.{
  io_error, doc_fatal_error, op_from_client, info_from_client, info_from_server, ops_sent, Info,
  Out, resp, remote, Server, Step, get_remote_doc, set_remote, fail,
}

-- The loop over the instructions of one operation; false is an error.
unfoldable pub apply_instructions : List EditInstruction → RemoteDoc → Option (Bool × RemoteDoc)
unfolding apply_edit_instruction_unchecked
apply_instructions [] d = some (true, d)
apply_instructions (i ∷ is) d = apply_edit_instruction_unchecked i d >>= λ r.
    let rest = apply_instructions is r.1 in if r.0 then rest else some (false, r.1)

-- One operation of the editor.
unfoldable pub process_one_local : EditorFatOp → RemoteDoc → Option (Bool × RemoteDoc)
unfolding process_local_op apply_instructions verify_buffer_engine_sync
process_one_local op d = process_local_op d.engine op d.next_site_seq >>= λ r.
    let d' = record d { next_site_seq = add_u32 d.next_site_seq 1; engine = r.1 } in
    elim r.0 [
      | err _ ↦ some (false, d')
      | ok instructions ↦
          (apply_instructions instructions d' >>= λ applied.
          some ((if applied.0 then verify_buffer_engine_sync applied.1 else false), applied.1))
    ]

-- The closure `process_local_ops`.
unfoldable pub process_local_ops : List EditorFatOp → RemoteDoc → Option (Bool × RemoteDoc)
unfolding process_one_local
process_local_ops [] d = some (true, d)
process_local_ops (op ∷ ops) d = process_one_local op d >>= λ r.
    let rest = process_local_ops ops r.1 in if r.0 then rest else some (false, r.1)

-- One operation of the buffer, with what is handed on for the editor.
unfoldable pub apply_one_remote :
    OpRecord → RemoteDoc → Option (Bool × List EditorLeanOp × RemoteDoc)
unfolding process_remote_op apply_edit_instruction
apply_one_remote op d = process_remote_op d.engine op >>= λ r.
    let d' = record d { engine = r.1 } in
    elim r.0 [
      | err _ ↦ some (false, [], d')
      | ok none ↦ some (true, [], d')
      | ok (some (lean, _)) ↦
          (apply_edit_instruction lean.op d' >>= λ applied.
          some (applied.0, (if applied.0 then lean ∷ [] else []), applied.1))
    ]

-- The closure `apply_remote_ops`.
unfoldable pub apply_remote_ops :
    List OpRecord → RemoteDoc → Option (Bool × List EditorLeanOp × RemoteDoc)
unfolding apply_one_remote
apply_remote_ops [] d = some (true, [], d)
apply_remote_ops (op ∷ ops) d = apply_one_remote op d >>= λ r.
    let rest = apply_remote_ops ops r.2 >>= λ q. some (q.0, r.1 ++ q.1, q.2) in
    if r.0 then rest else some (false, r.1, r.2)

-- The error: the document is given up.
unfoldable pub give_up_doc : Text → ℕ → Server → Step
unfolding remove_remote_doc
give_up_doc host doc_id s =
    fail doc_fatal_error (set_remote (remove_remote_doc host doc_id s.remote_docs) s)

-- The package for the host of the document, and the answer to the editor.
unfoldable pub answer_ops : Text → ℕ → List EditorLeanOp → RemoteDoc → Server → Step
unfolding maybe_package_local_ops pending_local_ops write_remote_doc
answer_ops host doc_id lean_ops d s =
    let (packaged, engine) = maybe_package_local_ops d.engine doc_id in
    let out : List Out = elim packaged [
      | none ↦ []
      | some context_ops ↦ remote host false (op_from_client context_ops) ∷ []
    ] in
    (
      out
          ++ resp
              (ops_sent lean_ops engine.current_seq (pending_local_ops engine) (length d.buffer))
            ∷ [],
      set_remote (write_remote_doc host doc_id (record d { engine = engine }) s.remote_docs) s,
    )

-- What follows when the document is found.
unfoldable pub send_ops : List EditorFatOp → Text → ℕ → RemoteDoc → Server → Option Step
unfolding process_local_ops apply_remote_ops give_up_doc answer_ops
send_ops ops host doc_id d s = process_local_ops ops (record d { remote_op_buffer = [] }) >>= λ r.
    let rest = apply_remote_ops d.remote_op_buffer r.1 >>= λ q.
    some (if q.0 then answer_ops host doc_id q.1 q.2 s else give_up_doc host doc_id s) in
    if r.0 then rest else some (give_up_doc host doc_id s)

unfoldable pub handle_send_ops_from_editor :
    List EditorFatOp → EditorFileDesc → Server → Option Step
unfolding get_remote_doc send_ops
handle_send_ops_from_editor ops desc s = elim (get_remote_doc desc s) [
  | none ↦ some (fail io_error s)
  | some found ↦ send_ops ops desc.host_id found.0 found.1 s
]

pub data UndoKind : Type 0 where
  undo_kind redo_kind : UndoKind

abbrev generate : UndoKind → RemoteDoc → Option (List EditInstruction × ℕ)
generate undo_kind d = generate_undo_op d.engine
generate redo_kind d = generate_redo_op d.engine

-- The inner `none` is the error that the document is not open.
unfoldable pub handle_undo_from_editor :
    UndoKind → EditorFileDesc → Server → Option (Option (List EditInstruction × ℕ))
unfolding get_remote_doc generate_undo_op generate_redo_op
handle_undo_from_editor kind desc s = elim (get_remote_doc desc s) [
  | none ↦ some none
  | some found ↦ (generate kind found.1 >>= λ r. some (some r))
]

unfoldable pub tell_except : Text → Info → List (Text × ℕ) → List Out
tell_except sender info [] = []
tell_except sender info ((host, _) ∷ hosts) =
    let rest = tell_except sender info hosts in
    if text_beq host sender then rest else remote host true (info_from_server info) ∷ rest

-- `broadcast_info`; `none` is the error that the document is not there.
unfoldable pub broadcast_info : Info → Server → Option (List Out)
unfolding tell_except
broadcast_info info s = elim (lookup info.doc_id s.docs) [
  | none ↦ none
  | some doc ↦ some (tell_except info.sender info doc.subscribers)
]

-- The second look-up of the source is the first one again, so that nothing follows where it fails.
unfoldable pub handle_send_info_from_editor : Text → EditorFileDesc → Server → List Out
unfolding get_remote_doc
handle_send_info_from_editor value desc s = elim (get_remote_doc desc s) [
  | none ↦ []
  | some found ↦
      (remote desc.host_id true
          (info_from_client (record { doc_id = found.0; sender = s.host_id; value = value }))
        ∷ [])
]
