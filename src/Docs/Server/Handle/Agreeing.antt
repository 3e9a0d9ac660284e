-- ===== src/Docs/Server/Handle/Agreeing.antt =====
-- What the handlers of messages do to the tables of the remote documents.
use collab_mode.Prelude.{
  ℕ, ◌≡◌, refl, Bool, not, ◌&&◌, inl, inr, Bool-cases, Option-cases, Option, none, some, List, [],
  ◌∷◌, Text, arith, ltb,
}
use collab_mode.Map.{nat_eq, text_eq, pair_eq, lookup}
use collab_mode.Types.Files.{FileDesc, editor_desc_eq}
use collab_mode.Config.{delete_allowed}
use collab_mode.Engine.{OpRecord}
use collab_mode.Engine.Client.{ContextOps}
use collab_mode.Docs.{Chunk}
use collab_mode.Docs.Remote.{RemoteDoc, RemoteDocs, remove_remote_doc, write_remote_doc}
use collab_mode.Docs.Remote.Laws.{Agrees, remove_remote_doc-Agrees, write_remote_doc-Agrees}
use collab_mode.Docs.Follow.{buffer_ops, expected_gseq, handle_op_from_server}
use collab_mode.Docs.Server.{Disk, OpenMode, Out, Server, Step}
use collab_mode.Docs.Server.Requested.{handle_request_file}
use collab_mode.Docs.Server.Close.{
  remove_docs, find_docs_and_path_to_delete, delete_path, handle_close_file_locally,
  answer_requester, handle_close_file_from_remote,
}
use collab_mode.Docs.Server.Move.{handle_move_message}
use collab_mode.Docs.Server.Save.{handle_save_message, handle_reset_message}
use collab_mode.Docs.Server.Handle.{take_ops, unsubscribe}

-- A step that leaves tables that agree where it finds them so.
abbrev pub Agreeing : Server → Step → Type 0
Agreeing s step = Agrees s.remote_docs → Agrees step.1.remote_docs

pub same_tables : (s : Server) (step : Step) → step.1.remote_docs ≡ s.remote_docs → Agreeing s step
same_tables s step same ok = rw same ok

pub request_file-same :
    (disk : Disk) (desc : FileDesc) (host : Text) (mode : OpenMode) (s : Server)
    → (handle_request_file disk desc host mode s).1.remote_docs ≡ s.remote_docs
unfolding handle_request_file
request_file-same disk desc host mode s = ground arith

pub take_ops-same :
    (ops : ContextOps) (host : Text) (s : Server) (step : Step)
    → take_ops ops host s ≡ some step
    → step.1.remote_docs ≡ s.remote_docs
unfolding take_ops
take_ops-same ops host s step e = ground arith

pub unsubscribe-same :
    (doc : ℕ) (host : Text) (s : Server) → (unsubscribe doc host s).remote_docs ≡ s.remote_docs
unfolding unsubscribe
unsubscribe-same doc host s = ground arith

pub save_message-same :
    (disk : Disk) (id : ℕ) (host : Text) (s : Server)
    → (handle_save_message disk id host s).1.remote_docs ≡ s.remote_docs
unfolding handle_save_message
save_message-same disk id host s = ground arith

pub move_message-same :
    (disk : Disk) (id old_path new_path host : Text) (s : Server)
    → (handle_move_message disk id old_path new_path host s).1.remote_docs ≡ s.remote_docs
unfolding handle_move_message
move_message-same disk id old_path new_path host s = ground arith

pub reset_message-same :
    (diff : Text → Text → List Chunk) (disk : Disk) (id : ℕ) (host : Text) (s : Server)
    (step : Step)
    → handle_reset_message diff disk id host s ≡ some step
    → step.1.remote_docs ≡ s.remote_docs
unfolding handle_reset_message
reset_message-same diff disk id host s step e = ground arith

remove_docs-Agreeing :
    (disk : Disk) (ids : List ℕ) (s : Server) → Agreeing s (remove_docs disk ids s)
unfolding remove_docs
remove_docs-Agreeing disk [] s ok = ok
remove_docs-Agreeing disk (id ∷ ids) s ok =
    remove_docs-Agreeing disk ids _ (remove_remote_doc-Agrees s.host_id id s.remote_docs ok)

close_locally-Agreeing :
    (disk : Disk) (file : FileDesc) (delete : Bool) (s : Server)
    → Agrees s.remote_docs
    → Agrees (handle_close_file_locally disk file delete s).2.remote_docs
unfolding handle_close_file_locally
close_locally-Agreeing disk file delete s =
    elim (Option-cases (find_docs_and_path_to_delete file s)) [
      | inl e ↦ rw (e, handle_close_file_locally) (λ ok. ok)
      | inr (closing, e) ↦ elim (Bool-cases (delete && not (delete_path disk closing.path))) [
        | inl broken ↦
            rw (e, handle_close_file_locally) (rw broken (remove_docs-Agreeing disk closing.ids s))
        | inr fine ↦
            rw (e, handle_close_file_locally) (rw fine (remove_docs-Agreeing disk closing.ids s))
      ]
    ]

answer_requester-Agreeing :
    (s : Server) (own requester : Text) (file : FileDesc) (delete : Bool)
    (x : Option (List Text) × List Out × Server)
    → (Agrees s.remote_docs → Agrees x.2.remote_docs)
    → Agreeing s (answer_requester own requester file delete x)
unfolding answer_requester
answer_requester-Agreeing s own requester file delete (none, out, s') keeps = keeps
answer_requester-Agreeing s own requester file delete (some _, out, s') keeps = keeps

pub close_from_remote-Agreeing :
    (disk : Disk) (file : FileDesc) (host : Text) (delete : Bool) (s : Server)
    → Agreeing s (handle_close_file_from_remote disk file host delete s)
unfolding handle_close_file_from_remote
close_from_remote-Agreeing disk file host delete s =
    elim (Bool-cases (delete_allowed s.config host)) [
      | inl may ↦ rw may (
          answer_requester-Agreeing s s.host_id host file delete _
            (close_locally-Agreeing disk file delete s))
      | inr refused ↦ rw refused (λ ok. ok)
    ]

-- Buffering keeps the descriptor of a document.
abbrev HasDesc : FileDesc → Option RemoteDoc → Type 0
HasDesc f none = Unit {0}
HasDesc f (some d) = d.file_desc ≡ f

buffer_ops-HasDesc :
    (doc : ℕ) (ops : List OpRecord) (d : RemoteDoc) → HasDesc d.file_desc (buffer_ops doc ops d).1
unfolding buffer_ops
buffer_ops-HasDesc doc [] d = refl
buffer_ops-HasDesc doc (op ∷ ops) d = elim (Option-cases op.seq) [
  | inl e ↦ rw (e, buffer_ops) tt
  | inr (gseq, e) ↦ elim (Bool-cases (ltb gseq (expected_gseq d))) [
    | inl f ↦ rw (e, buffer_ops) (rw f (buffer_ops-HasDesc doc ops d))
    | inr f ↦ elim (Bool-cases (ltb (expected_gseq d) gseq)) [
      | inl g ↦ rw (e, buffer_ops) (rw f (rw g (buffer_ops-HasDesc doc ops d)))
      | inr g ↦ rw (e, buffer_ops) (rw f (rw g (buffer_ops-HasDesc doc ops _)))
    ]
  ]
]

buffered-Agrees :
    (doc : ℕ) (host : Text) (d : RemoteDoc) (result : Option RemoteDoc) (r : RemoteDocs)
    → HasDesc d.file_desc result
    → lookup (host, doc) r.docs ≡ some d
    → Agrees r
    → Agrees (elim result [
      | none ↦ remove_remote_doc host doc r
      | some d' ↦ write_remote_doc host doc d' r
    ])
buffered-Agrees doc host d none r has there ok = remove_remote_doc-Agrees host doc r ok
buffered-Agrees doc host d (some d') r has there ok =
    write_remote_doc-Agrees host doc d' d r ok there has

pub follow-Agrees :
    (doc : ℕ) (ops : List OpRecord) (host : Text) (r : RemoteDocs)
    → Agrees r
    → Agrees (handle_op_from_server doc ops host r).1
unfolding handle_op_from_server
follow-Agrees doc [] host r ok = ok
follow-Agrees doc (op ∷ ops) host r ok = elim (Option-cases (lookup (host, doc) r.docs)) [
  | inl e ↦ rw (e, handle_op_from_server) ok
  | inr (d, e) ↦
      let kept =
        buffered-Agrees doc host d (buffer_ops doc (op ∷ ops) d).1 r
          (buffer_ops-HasDesc doc (op ∷ ops) d) e ok in
      elim (Option-cases (buffer_ops doc (op ∷ ops) d).1) [
        | inl f ↦ rw (e, handle_op_from_server) (rw f (rw f at kept))
        | inr (d', f) ↦ rw (e, handle_op_from_server) (rw f (rw f at kept))
      ]
]

pub of_step :
    (s : Server) (made step : Step) → Agreeing s made → some made ≡ some step → Agreeing s step
of_step s made step keeps e = let is : made ≡ step = cc in rw⁻¹ is keeps

pub of_same :
    (s : Server) (made step : Step)
    → made.1.remote_docs ≡ s.remote_docs
    → some made ≡ some step
    → Agreeing s step
of_same s made step same = of_step s made step (same_tables s made same)
