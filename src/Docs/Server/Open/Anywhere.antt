-- ===== src/Docs/Server/Open/Anywhere.antt =====
-- Which files another host can open.
use collab_mode.Prelude.{
  ℕ, ◌≡◌, refl, Bool, true, false, inl, inr, Option-cases, none, some, List, ◌∷◌, Text,
}
use collab_mode.Map.{text_eq, text_beq, lookup}
use collab_mode.Types.Files.{project_file, reserved_files_project}
use collab_mode.Config.{create_allowed}
use collab_mode.Docs.Serve.{path_id}
use collab_mode.Docs.Server.{
  open_mode, NewSnapshot, snapshot, Out, remote, Disk, Server, site_id_of,
}
use collab_mode.Docs.Server.Open.{read_file, full_path, open_file_from_disk, opened}
use collab_mode.Docs.Server.Requested.{
  first_match, request_from_disk, answer_request, handle_request_file,
}

read_any :
    (disk : Disk) (path content : Text) (s : Server) (may_create : Bool)
    → disk.opened path false ≡ true
    → disk.is_binary path ≡ false
    → disk.content path ≡ some content
    → open_file_from_disk disk reserved_files_project path open_mode may_create s
      ≡ opened content path
unfolding open_file_from_disk full_path read_file text_beq
read_any disk path content s may_create opens text has =
    rw (opens, read_file) (rw (text, read_file) (rw (has, read_file) refl))

site_id_of-docs : (host : Text) (s : Server) → (site_id_of host s).1.docs ≡ s.docs
unfolding site_id_of
site_id_of-docs host s = elim (Option-cases (lookup host s.site_id_map)) [
  | inl e ↦ rw (e, site_id_of) refl
  | inr (_, e) ↦ rw (e, site_id_of) refl
]

-- The answer holds the content.
abbrev Answers : Text → Text → List Out → Type 0
Answers host content out =
    (shot : NewSnapshot) × (rest : List Out) × (out ≡ remote host true (snapshot shot) ∷ rest)
    × (shot.content ≡ content)

answer_any :
    (disk : Disk) (path content host : Text) (site : ℕ) (s : Server)
    → first_match (path_id path) s.docs ≡ none
    → disk.opened path false ≡ true
    → disk.is_binary path ≡ false
    → disk.content path ≡ some content
    → Answers host content
        (answer_request disk
          (project_file reserved_files_project path)
          (path_id path)
          host
          open_mode
          site
          s).0
unfolding answer_request request_from_disk
answer_any disk path content host site s closed opens text has =
    rw (closed, answer_request)
      (rw
        (
          read_any disk path content s (create_allowed s.config host) opens text has,
          request_from_disk,
        )
        (_, _, refl, refl))

-- Another host gets the content of every text file that the file system opens to this one, whether
-- it lies in a project or was shared, and whatever the permissions of that host are: asked for a
-- path in the project of the files that are in no project, `handle_request_file` answers with a
-- snapshot of what the file holds, where no document is open at that path yet.
pub handle_request_file-any_path :
    (disk : Disk) (path content host : Text) (s : Server)
    → first_match (path_id path) s.docs ≡ none
    → disk.opened path false ≡ true
    → disk.is_binary path ≡ false
    → disk.content path ≡ some content
    → Answers host content
        (handle_request_file disk (project_file reserved_files_project path) host open_mode s).0
unfolding handle_request_file text_beq
handle_request_file-any_path disk path content host s closed opens text has =
    let s' = (site_id_of host s).1 in
    let closed' : first_match (path_id path) s'.docs ≡ none = rw (site_id_of-docs host s) closed in
    answer_any disk path content host (site_id_of host s).0 s' closed' opens text has
