-- ===== src/Docs/Server/Save.antt =====
-- Saving documents, and taking over what another program wrote to their files
-- (collab_mode/src/server.rs).
use collab_mode.Prelude.{
  ℕ, ◌-◌, ◌^◌, leb, Bool, true, false, not, Option, none, some, List, [], ◌∷◌, ◌++◌, map, Text,
  if◌then◌else◌, ◌>>=◌,
}
use collab_mode.Map.{text_eq, nat_eq, text_beq, lookup, insert}
use collab_mode.Types.Files.{EditorFileDesc, FileDesc}
use collab_mode.Paths.{path_beq}
use collab_mode.Config.{write_allowed}
use collab_mode.Engine.{OpRecord}
use collab_mode.Engine.Server.{process_ops}
use collab_mode.Docs.{Chunk, chunks_to_ops}
use collab_mode.Docs.Serve.{Doc, apply_each, op_from_server, permission_denied, is_empty}
use collab_mode.Docs.Server.{
  io_error, served, save_file, file_saved, error_resp, file_named, reset_from_disk, Out, resp,
  remote, Disk, Server, Step, get_remote_doc, set_docs, fail,
}
use collab_mode.Docs.Server.Close.{save_to_disk}

-- Whether `save_file_to_disk` went well, with the state.
unfoldable pub save_file_to_disk : Disk → ℕ → Server → Bool × List Out × Server
unfolding save_to_disk
save_file_to_disk disk doc_id s = elim (lookup doc_id s.docs) [
  | none ↦ (false, [], s)
  | some doc ↦
      (let (out, ok, doc') = save_to_disk disk doc in
        (ok, out, set_docs (insert doc_id doc' s.docs) s))
]

unfoldable pub save_own : Disk → EditorFileDesc → ℕ → Server → Step
unfolding save_file_to_disk
save_own disk desc doc_id s =
    let (ok, out, s') = save_file_to_disk disk doc_id s in
    (out ++ (if ok then resp (file_named desc) ∷ [] else (fail io_error s').0), s')

unfoldable pub handle_save_file_from_editor : Disk → EditorFileDesc → Server → Step
unfolding get_remote_doc save_own
handle_save_file_from_editor disk desc s = elim (get_remote_doc desc s) [
  | none ↦ fail io_error s
  | some found ↦
      (if text_beq desc.host_id s.host_id
        then save_own disk desc found.0 s
        else (remote desc.host_id true (save_file found.0) ∷ [], s))
]

abbrev desc_at : ℕ → Server → Option FileDesc
desc_at doc_id s = elim (lookup doc_id s.docs) [ none ↦ none | some doc ↦ some doc.file_desc ]

-- `Msg::SaveFile`
unfoldable pub handle_save_message : Disk → ℕ → Text → Server → Step
unfolding write_allowed save_file_to_disk
handle_save_message disk doc_id host s =
    if write_allowed s.config host
    then (let (ok, out, s') = save_file_to_disk disk doc_id s in
        (
          out
              ++ remote host true
                  (if ok then file_saved doc_id else error_resp io_error (desc_at doc_id s'))
                ∷ [],
          s',
        ))
    else (remote host true (served permission_denied) ∷ [], s)

-- `EXTERNAL_PROCESS_SITE_ID`
abbrev pub external_process_site_id : ℕ
external_process_site_id = 2 ^ 32 - 1

abbrev same_file : Text → Option Text → Bool
same_file path none = false
same_file path (some p) = path_beq p path

abbrev first_of {ℓ} : {A : Type ℓ} → Bool → A → Option A → Option A
first_of true a rest = some a
first_of false a rest = rest

-- The document whose canonical path it is.
unfoldable pub doc_at_path : Text → List (ℕ × Doc) → Option (ℕ × Doc)
unfolding path_beq
doc_at_path path [] = none
doc_at_path path ((id, doc) ∷ docs) =
    let rest = doc_at_path path docs in first_of (same_file path doc.canon_filename) (id, doc) rest

-- Whether a change is not newer than the last save.
abbrev is_old : Option ℕ → Doc → Bool
is_old none doc = false
is_old (some t) doc = leb t doc.last_saved_at

-- What `reset_doc_from_disk` does with the operations, which are not empty. False is an error.
unfoldable pub apply_external :
    ℕ → Text → List OpRecord → Doc → Server → Option (Bool × List Out × Server)
unfolding process_ops apply_each
apply_external id path ops doc s =
    let (processed, engine) = process_ops doc.engine ops doc.engine.current_seq in
    apply_each processed (record doc { disk_file = some path; engine = engine }) >>= λ r. some (
      r.0,
      if r.0
          then map (λ e. remote e.0 true (served (op_from_server id processed))) (r.1).subscribers
          else [],
      set_docs (insert id r.1 s.docs) s,
    )

-- `dissimilar::diff` is the argument `diff`.
module _ (diff : Text → Text → List Chunk) where
  unfoldable pub reset_doc : ℕ → Text → Text → Doc → Server → Option (Bool × List Out × Server)
  unfolding chunks_to_ops apply_external
  reset_doc id path content doc s =
      let (ops, next) =
        chunks_to_ops (diff doc.buffer content) external_process_site_id
          doc.next_external_site_seq in
      let rest = apply_external id path ops (record doc { next_external_site_seq = next }) s in
      if is_empty ops then some (true, [], s) else rest

  unfoldable pub reset_doc_from_disk :
      Disk → Text → Option ℕ → Server → Option (Bool × List Out × Server)
  unfolding doc_at_path reset_doc
  reset_doc_from_disk disk path timestamp s = elim (doc_at_path path s.docs) [
    | none ↦ some (true, [], s)
    | some found ↦
        (if is_old timestamp found.1
          then some (true, [], s)
          else if not (disk.opened path false)
          then some (false, [], s)
          else elim (disk.content path) [
            | none ↦ some (false, [], s)
            | some content ↦ reset_doc found.0 path content found.1 s
          ])
  ]

  -- The path of a hosted document.
  abbrev canon_at : ℕ → Server → Option Text
  canon_at id s = elim (lookup id s.docs) [ none ↦ none | some doc ↦ doc.canon_filename ]

  unfoldable pub reset_own : Disk → EditorFileDesc → ℕ → Server → Option Step
  unfolding reset_doc_from_disk
  reset_own disk desc id s = elim (canon_at id s) [
    | none ↦ some (fail io_error s)
    | some path ↦ reset_doc_from_disk disk path none s >>= λ r.
        some (r.1 ++ (if r.0 then resp (file_named desc) ∷ [] else (fail io_error s).0), r.2)
  ]

  unfoldable pub handle_reset_from_disk_from_editor : Disk → EditorFileDesc → Server → Option Step
  unfolding get_remote_doc reset_own
  handle_reset_from_disk_from_editor disk desc s = elim (get_remote_doc desc s) [
    | none ↦ some (fail io_error s)
    | some found ↦
        (if text_beq desc.host_id s.host_id
          then reset_own disk desc found.0 s
          else some
              (remote desc.host_id true (reset_from_disk found.0) ∷ resp (file_named desc) ∷ [], s))
  ]

  -- `Msg::ResetFromDisk`
  unfoldable pub handle_reset_message : Disk → ℕ → Text → Server → Option Step
  unfolding write_allowed reset_doc_from_disk
  handle_reset_message disk id host s =
      if write_allowed s.config host
      then (elim (canon_at id s) [
        | none ↦ some (remote host true (error_resp io_error (desc_at id s)) ∷ [], s)
        | some path ↦ reset_doc_from_disk disk path none s >>= λ r. some (
          r.1 ++ (if r.0 then [] else remote host true (error_resp io_error (desc_at id s)) ∷ []),
          r.2,
        )
      ])
      else some (remote host true (served permission_denied) ∷ [], s)
