-- ===== src/Docs/Server/Requested.antt =====
-- The files that other hosts ask for, and the snapshots that they send (collab_mode/src/server.rs).
use collab_mode.Prelude.{
  ℕ, Bool, true, false, ◌&&◌, Option, none, some, List, [], ◌∷◌, Text, length, if◌then◌else◌,
}
use collab_mode.Map.{text_eq, nat_eq, text_beq}
use collab_mode.Types.Files.{FileDesc, project, project_file, new_editor_desc, file_desc_beq}
use collab_mode.InternalDoc.{new}
use collab_mode.Engine.Client.{new_client}
use collab_mode.Config.{create_allowed}
use collab_mode.Docs.Serve.{Doc, PathId}
use collab_mode.Docs.Remote.{RemoteDoc, insert_remote_doc}
use collab_mode.Docs.Server.{
  io_error, bad_request_error, permission_denied_error, OpenMode, NewSnapshot, snapshot, error_resp,
  project_refused, request_ops_after, file_opened, resp, remote, Disk, Server, Step,
  path_id_from_file_desc, matches, site_id_of, resend_watch_files, set_remote, fail,
}
use collab_mode.Docs.Server.Open.{add_doc, denied, failed, open_file_from_disk, opened}

abbrev pub first_of {ℓ} : {A : Type ℓ} → Bool → A → Option A → Option A
first_of true a rest = some a
first_of false a rest = rest

-- The loop that returns at the first document that matches.
unfoldable pub first_match : PathId → List (ℕ × Doc) → Option (ℕ × Doc)
unfolding matches
first_match path [] = none
first_match path ((id, doc) ∷ docs) =
    let rest = first_match path docs in first_of (matches path doc) (id, doc) rest

unfoldable pub request_from_disk : Disk → Text → Text → OpenMode → Text → ℕ → Server → Step
unfolding open_file_from_disk add_doc new create_allowed resend_watch_files
request_from_disk disk id file mode host site s =
    let desc = project_file id file in
    elim (open_file_from_disk disk id file mode (create_allowed s.config host) s) [
      | denied ↦ (remote host true (error_resp permission_denied_error (some desc)) ∷ [], s)
      | failed ↦ (remote host true (error_resp io_error (some desc)) ∷ [], s)
      | opened content full ↦
          (let (made, s') = add_doc disk file desc content full s in
            let shot : NewSnapshot = record {
              content = content;
              internal_doc = new (length content);
              name = (made.1).name;
              seq = 0;
              site_id = site;
              file_desc = desc;
              doc_id = made.0;
            } in
            (remote host true (snapshot shot) ∷ resend_watch_files s' ∷ [], s'))
    ]

abbrev pub snapshot_of : FileDesc → ℕ → ℕ → Doc → NewSnapshot
snapshot_of desc site id doc = record {
  content = doc.buffer;
  internal_doc = doc.engine.internal_doc;
  name = doc.name;
  seq = doc.engine.current_seq;
  site_id = site;
  file_desc = desc;
  doc_id = id;
}

-- The match on the descriptor.
unfoldable pub answer_request : Disk → FileDesc → PathId → Text → OpenMode → ℕ → Server → Step
unfolding first_match request_from_disk
answer_request disk (project id) path host mode site s = (remote host true project_refused ∷ [], s)
answer_request disk (project_file id file) path host mode site s = elim (first_match path s.docs) [
  | some found ↦ (
    remote host true (snapshot (snapshot_of (project_file id file) site found.0 found.1)) ∷ [],
    s,
  )
  | none ↦ request_from_disk disk id file mode host site s
]

unfoldable pub handle_request_file : Disk → FileDesc → Text → OpenMode → Server → Step
unfolding path_id_from_file_desc site_id_of answer_request
handle_request_file disk desc host mode s = elim (path_id_from_file_desc desc s) [
  | none ↦ (remote host true (error_resp io_error (some desc)) ∷ [], s)
  | some path ↦
      (let (site, s') = site_id_of host s in answer_request disk desc path host mode site s')
]

-- Whether a document of the host is open under the descriptor.
unfoldable pub is_open_from : Text → FileDesc → List ((Text × ℕ) × RemoteDoc) → Bool
is_open_from host desc [] = false
is_open_from host desc ((key, d) ∷ docs) =
    if text_beq key.0 host && file_desc_beq d.file_desc desc
    then true
    else is_open_from host desc docs

abbrev pub snapshot_doc : NewSnapshot → RemoteDoc
snapshot_doc shot = record {
  name = shot.name;
  file_desc = shot.file_desc;
  next_site_seq = 1;
  remote_op_buffer = [];
  engine = new_client shot.site_id shot.seq shot.internal_doc;
  buffer = shot.content;
}

unfoldable pub handle_snapshot : NewSnapshot → Text → Server → Step
unfolding is_open_from insert_remote_doc new_editor_desc
handle_snapshot shot host s =
    if is_open_from host shot.file_desc s.remote_docs.docs
    then fail bad_request_error s
    else (let desc = new_editor_desc shot.file_desc host in
        (
          resp (file_opened shot.content shot.site_id shot.name desc)
              ∷ remote host true (request_ops_after shot.doc_id shot.seq)
              ∷ [],
          set_remote (insert_remote_doc host shot.doc_id (snapshot_doc shot) desc s.remote_docs) s,
        ))
