-- ===== src/Docs/Server/Handle/Harmless.antt =====
-- What the handlers of messages send and keep when the host that sent the message may not write.
use collab_mode.Prelude.{ℕ, ◌≡◌, refl, false, inl, inr, Bool-cases, Option-cases, none, Text, All}
use collab_mode.Map.{nat_eq, text_eq, pair_eq, lookup}
use collab_mode.Types.Files.{FileDesc, project, project_file}
use collab_mode.Config.{write_allowed, create_allowed}
use collab_mode.Docs.Serve.{PathId}
use collab_mode.Docs.Server.{
  OpenMode, NewSnapshot, Info, Disk, Server, Step, path_id_from_file_desc, site_id_of,
}
use collab_mode.Docs.Server.Open.{denied, failed, opened, open_file_from_disk, add_doc}
use collab_mode.Docs.Server.Requested.{
  request_from_disk, answer_request, first_match, handle_request_file, handle_snapshot,
  is_open_from,
}
use collab_mode.Docs.Server.Handle.{handle_make_directory, info_arrived, save_answered}
use collab_mode.Docs.Server.Handle.Kept.{Kept, IsMessage, Kept-self, Kept-insert_fresh}

-- A step that sends messages only, and keeps the documents.
abbrev pub Harmless : Server → Step → Type 0
Harmless s step = All IsMessage step.0 × Kept s.docs step.1.docs

add_doc-Kept :
    (disk : Disk) (file : Text) (desc : FileDesc) (content path : Text) (s : Server)
    → lookup s.next_doc_id s.docs ≡ none
    → Kept s.docs (add_doc disk file desc content path s).1.docs
unfolding add_doc
add_doc-Kept disk file desc content path s free = Kept-insert_fresh s.next_doc_id _ s.docs free

request_from_disk-Harmless :
    (disk : Disk) (id file : Text) (mode : OpenMode) (host : Text) (site : ℕ) (s : Server)
    → lookup s.next_doc_id s.docs ≡ none
    → Harmless s (request_from_disk disk id file mode host site s)
unfolding request_from_disk
request_from_disk-Harmless disk id file mode host site s free =
    elim (open_file_from_disk disk id file mode (create_allowed s.config host) s)
        as (λ o.
          open_file_from_disk disk id file mode (create_allowed s.config host) s ≡ o
          → Harmless s (request_from_disk disk id file mode host site s)) [
            | denied ↦ λ e. rw (e, request_from_disk) ((tt, tt), Kept-self s.docs)
            | failed ↦ λ e. rw (e, request_from_disk) ((tt, tt), Kept-self s.docs)
            | opened content full ↦ λ e.
                rw (e, request_from_disk)
                  (
                    (tt, (tt, tt)),
                    add_doc-Kept disk file (project_file id file) content full s free,
                  )
          ]
      refl

answer_request-Harmless :
    (disk : Disk) (desc : FileDesc) (path : PathId) (host : Text) (mode : OpenMode) (site : ℕ)
    (s : Server)
    → lookup s.next_doc_id s.docs ≡ none
    → Harmless s (answer_request disk desc path host mode site s)
unfolding answer_request
answer_request-Harmless disk (project _) path host mode site s free = ((tt, tt), Kept-self s.docs)
answer_request-Harmless disk (project_file id file) path host mode site s free =
    elim (Option-cases (first_match path s.docs)) [
      | inl e ↦
          rw (e, answer_request) (request_from_disk-Harmless disk id file mode host site s free)
      | inr (found, e) ↦ rw (e, answer_request) ((tt, tt), Kept-self s.docs)
    ]

-- `site_id_of` leaves the documents.
abbrev SameDocs : Server → Server → Type 0
SameDocs s s' = (s'.docs ≡ s.docs) × (s'.next_doc_id ≡ s.next_doc_id)

site_id_of-SameDocs : (host : Text) (s : Server) → SameDocs s (site_id_of host s).1
unfolding site_id_of
site_id_of-SameDocs host s = elim (Option-cases (lookup host s.site_id_map)) [
  | inl e ↦ rw (e, site_id_of) (refl, refl)
  | inr (_, e) ↦ rw (e, site_id_of) (refl, refl)
]

pub handle_request_file-Harmless :
    (disk : Disk) (desc : FileDesc) (host : Text) (mode : OpenMode) (s : Server)
    → lookup s.next_doc_id s.docs ≡ none
    → Harmless s (handle_request_file disk desc host mode s)
unfolding handle_request_file
handle_request_file-Harmless disk desc host mode s free =
    elim (Option-cases (path_id_from_file_desc desc s)) [
      | inl e ↦ rw (e, handle_request_file) ((tt, tt), Kept-self s.docs)
      | inr (path, e) ↦
          let s' = (site_id_of host s).1 in
          let (docs, next) = site_id_of-SameDocs host s in
          let free' : lookup s'.next_doc_id s'.docs ≡ none = rw docs (rw next free) in
          let (out, kept) =
            answer_request-Harmless disk desc path host mode (site_id_of host s).0 s' free' in
          rw (e, handle_request_file) (out, λ id doc found. kept id doc (rw docs found))
    ]

pub handle_snapshot-Harmless :
    (shot : NewSnapshot) (host : Text) (s : Server) → Harmless s (handle_snapshot shot host s)
unfolding handle_snapshot
handle_snapshot-Harmless shot host s =
    elim (Bool-cases (is_open_from host shot.file_desc s.remote_docs.docs)) [
      | inl e ↦ rw e ((tt, tt), Kept-self s.docs)
      | inr e ↦ rw e ((tt, (tt, tt)), Kept-self s.docs)
    ]

pub make_directory-IsMessage :
    (disk : Disk) (desc : FileDesc) (host : Text) (s : Server)
    → write_allowed s.config host ≡ false
    → All IsMessage (handle_make_directory disk desc host s)
unfolding handle_make_directory
make_directory-IsMessage disk (project id) host s read_only = rw read_only (tt, tt)
make_directory-IsMessage disk (project_file id file) host s read_only = rw read_only (tt, tt)

pub save_answered-IsMessage :
    (doc : ℕ) (host : Text) (s : Server) → All IsMessage (save_answered doc host s)
unfolding save_answered
save_answered-IsMessage doc host s = elim (Option-cases (lookup (host, doc) s.remote_docs.docs)) [
  | inl e ↦ rw (e, save_answered) tt
  | inr (d, e) ↦ rw (e, save_answered) (tt, tt)
]

pub info_arrived-IsMessage :
    (disk : Disk) (info : Info) (host : Text) (s : Server)
    → All IsMessage (info_arrived disk info host s)
unfolding info_arrived
info_arrived-IsMessage disk info host s =
    elim (Option-cases (lookup (host, info.doc_id) s.remote_docs.docs)) [
      | inl e ↦ rw (e, info_arrived) (tt, tt)
      | inr (d, e) ↦ elim (Bool-cases (disk.parses info.value)) [
        | inl p ↦ rw (e, p, info_arrived) (tt, tt)
        | inr p ↦ rw (e, p, info_arrived) tt
      ]
    ]
