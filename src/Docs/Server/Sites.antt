-- ===== src/Docs/Server/Sites.antt =====
-- What the handlers do to the table of site ids (`site_id_of`, collab_mode/src/server.rs).
pub mod Messages
pub mod Distinct
pub mod Run
use collab_mode.Prelude.{
  ℕ, ◌≡◌, refl, Bool, true, false, not, ◌&&◌, inl, inr, Bool-cases, Option-cases, Option, none,
  some, List, [], ◌∷◌, ◌++◌, Text, arith, if◌then◌else◌, ◌>>=◌,
}
use collab_mode.Map.{text_eq, nat_eq, text_beq, lookup}
use collab_mode.Types.{EditorFatOp}
use collab_mode.Types.Files.{EditorFileDesc, FileDesc, file_desc_of}
use collab_mode.Config.{delete_allowed}
use collab_mode.Docs.{Chunk}
use collab_mode.Docs.Serve.{Doc, apply_each}
use collab_mode.Engine.{OpRecord}
use collab_mode.Docs.Server.{Disk, Msg, NewSnapshot, OpenMode, Out, Server, Step}
use collab_mode.Docs.Server.Open.{
  open_own, open_local, add_doc, open_file_from_disk, denied, failed, opened, open_file_from_editor,
}
use collab_mode.Docs.Server.Requested.{handle_snapshot}
use collab_mode.Docs.Server.Share.{handle_share_file_from_editor}
use collab_mode.Docs.Server.Close.{
  find_docs_and_path_to_delete, delete_path, remove_docs, handle_close_file_locally,
  handle_close_file_from_editor, answer_closed, answer_requester, handle_disconnect_from_file,
  handle_close_file_from_remote,
}
use collab_mode.Docs.Server.Move.{
  move_file_on_disk, handle_move_file_from_editor, handle_move_file, handle_move_message,
}
use collab_mode.Docs.Server.Save.{
  save_file_to_disk, save_own, handle_save_file_from_editor, handle_save_message, apply_external,
  reset_doc, reset_doc_from_disk, reset_own, handle_reset_from_disk_from_editor,
  handle_reset_message,
}
use collab_mode.Docs.Server.Send.{handle_send_ops_from_editor, send_ops}

abbrev pub SameSites : Server → Server → Type 0
SameSites s s' =
    (s'.site_id_map ≡ s.site_id_map) × (s'.next_site_id ≡ s.next_site_id) × (s'.site_id ≡ s.site_id)

pub open_own-SameSites :
    (desc : EditorFileDesc) (id : ℕ) (doc : Doc) (s : Server)
    → SameSites s (open_own desc id doc s).1
unfolding open_own
open_own-SameSites desc id doc s = (refl, refl, refl)

pub open_file_from_editor-SameSites :
    (disk : Disk) (desc : EditorFileDesc) (mode : OpenMode) (s : Server)
    → SameSites s (open_file_from_editor disk desc mode s).1
unfolding open_file_from_editor
open_file_from_editor-SameSites disk desc mode s = ground arith

pub share-SameSites :
    (disk : Disk) (name content : Text) (s : Server) (step : Step)
    → handle_share_file_from_editor disk name content s ≡ some step
    → SameSites s step.1
unfolding handle_share_file_from_editor
share-SameSites disk name content s step e = ground arith

pub snapshot-SameSites :
    (shot : NewSnapshot) (host : Text) (s : Server) → SameSites s (handle_snapshot shot host s).1
unfolding handle_snapshot
snapshot-SameSites shot host s = ground arith

pub remove_docs-SameSites :
    (disk : Disk) (ids : List ℕ) (s : Server) → SameSites s (remove_docs disk ids s).1
unfolding remove_docs
remove_docs-SameSites disk [] s = (refl, refl, refl)
remove_docs-SameSites disk (id ∷ ids) s = remove_docs-SameSites disk ids _

pub close_locally-SameSites :
    (disk : Disk) (file : FileDesc) (delete : Bool) (s : Server)
    → SameSites s (handle_close_file_locally disk file delete s).2
unfolding handle_close_file_locally
close_locally-SameSites disk file delete s =
    elim (Option-cases (find_docs_and_path_to_delete file s)) [
      | inl e ↦ rw (e, handle_close_file_locally) (refl, refl, refl)
      | inr (closing, e) ↦ elim (Bool-cases (delete && not (delete_path disk closing.path))) [
        | inl broken ↦
            rw (e, handle_close_file_locally) (rw broken (remove_docs-SameSites disk closing.ids s))
        | inr fine ↦
            rw (e, handle_close_file_locally) (rw fine (remove_docs-SameSites disk closing.ids s))
      ]
    ]

pub disconnect-SameSites :
    (desc : EditorFileDesc) (s : Server) → SameSites s (handle_disconnect_from_file desc s).1
unfolding handle_disconnect_from_file
disconnect-SameSites desc s = ground arith

pub move_file_on_disk-SameSites :
    (disk : Disk) (id old_path new_path : Text) (s : Server)
    → SameSites s (move_file_on_disk disk id old_path new_path s).1
unfolding move_file_on_disk
move_file_on_disk-SameSites disk id old_path new_path s = ground arith

pub save_file_to_disk-SameSites :
    (disk : Disk) (id : ℕ) (s : Server) → SameSites s (save_file_to_disk disk id s).2
unfolding save_file_to_disk
save_file_to_disk-SameSites disk id s = ground arith

pub reset_doc-SameSites :
    (diff : Text → Text → List Chunk) (id : ℕ) (path content : Text) (doc : Doc) (s : Server)
    (ok : Bool) (out : List Out) (s' : Server)
    → reset_doc diff id path content doc s ≡ some (ok, out, s')
    → SameSites s s'
unfolding reset_doc
reset_doc-SameSites diff id path content doc s ok out s' e = ground arith

pub reset_doc_from_disk-SameSites :
    (diff : Text → Text → List Chunk) (disk : Disk) (path : Text) (t : Option ℕ) (s : Server)
    (ok : Bool) (out : List Out) (s' : Server)
    → reset_doc_from_disk diff disk path t s ≡ some (ok, out, s')
    → SameSites s s'
unfolding reset_doc_from_disk
reset_doc_from_disk-SameSites diff disk path t s ok out s' e = ground arith

pub reset_from_editor-SameSites :
    (diff : Text → Text → List Chunk) (disk : Disk) (desc : EditorFileDesc) (s : Server)
    (step : Step)
    → handle_reset_from_disk_from_editor diff disk desc s ≡ some step
    → SameSites s step.1
unfolding handle_reset_from_disk_from_editor
reset_from_editor-SameSites diff disk desc s step e = ground arith

pub reset_message-SameSites :
    (diff : Text → Text → List Chunk) (disk : Disk) (id : ℕ) (host : Text) (s : Server)
    (step : Step)
    → handle_reset_message diff disk id host s ≡ some step
    → SameSites s step.1
unfolding handle_reset_message
reset_message-SameSites diff disk id host s step e = ground arith

pub send_ops-SameSites :
    (ops : List EditorFatOp) (desc : EditorFileDesc) (s : Server) (step : Step)
    → handle_send_ops_from_editor ops desc s ≡ some step
    → SameSites s step.1
unfolding handle_send_ops_from_editor
send_ops-SameSites ops desc s step e = ground arith

answer_closed-SameSites :
    (s : Server) (own : Text) (msg : Msg) (x : Option (List Text) × List Out × Server)
    → SameSites s x.2
    → SameSites s (answer_closed own msg x).1
unfolding answer_closed
answer_closed-SameSites s own msg (none, out, s') same = same
answer_closed-SameSites s own msg (some _, out, s') same = same

answer_requester-SameSites :
    (s : Server) (own requester : Text) (file : FileDesc) (delete : Bool)
    (x : Option (List Text) × List Out × Server)
    → SameSites s x.2
    → SameSites s (answer_requester own requester file delete x).1
unfolding answer_requester
answer_requester-SameSites s own requester file delete (none, out, s') same = same
answer_requester-SameSites s own requester file delete (some _, out, s') same = same

pub close_from_editor-SameSites :
    (disk : Disk) (desc : EditorFileDesc) (delete : Bool) (s : Server)
    → SameSites s (handle_close_file_from_editor disk desc delete s).1
unfolding handle_close_file_from_editor
close_from_editor-SameSites disk desc delete s =
    elim (Bool-cases (text_beq desc.host_id s.host_id)) [
      | inl own ↦ rw own (
          answer_closed-SameSites s s.host_id _ _
            (close_locally-SameSites disk (file_desc_of desc) delete s))
      | inr other ↦ rw other (refl, refl, refl)
    ]

pub close_from_remote-SameSites :
    (disk : Disk) (file : FileDesc) (host : Text) (delete : Bool) (s : Server)
    → SameSites s (handle_close_file_from_remote disk file host delete s).1
unfolding handle_close_file_from_remote
close_from_remote-SameSites disk file host delete s =
    elim (Bool-cases (delete_allowed s.config host)) [
      | inl may ↦ rw may (
          answer_requester-SameSites s s.host_id host file delete _
            (close_locally-SameSites disk file delete s))
      | inr refused ↦ rw refused (refl, refl, refl)
    ]
