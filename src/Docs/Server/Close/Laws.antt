-- ===== src/Docs/Server/Close/Laws.antt =====
-- Which documents are left after a file or a directory of a project was closed.
use collab_mode.Prelude.{
  ℕ, ◌≡◌, refl, ap, ◌∙◌, Bool, true, false, not, ◌&&◌, inl, inr, Bool-cases, Option-cases, none,
  some, List, [], ◌∷◌, Text, arith, if◌then◌else◌, ◌==◌,
}
use collab_mode.Map.{nat_eq, text_eq, text_beq, pair_eq, lookup, remove, contains_key, keys}
use collab_mode.Map.Laws.{lookup-remove, beq_self}
use collab_mode.Types.Files.{
  FileDesc, project, project_file, Project, reserved_buffers_project, reserved_files_project,
}
use collab_mode.Paths.{join, path_starts_with}
use collab_mode.Docs.Serve.{Doc, PathId, buffer_id, path_id}
use collab_mode.Docs.Remote.{RemoteDocs, remove_remote_doc}
use collab_mode.Docs.Server.{Disk, Server}
use collab_mode.Docs.Server.Close.{
  docs_under, closing_under, find_docs_and_path_to_delete, remove_docs, delete_path, is_under,
  handle_close_file_locally, set_insert_all,
}

-- No id stands twice.
abbrev pub Unique : List (ℕ × Doc) → Type 0
Unique [] = Unit
Unique ((id, _) ∷ docs) = (contains_key id docs ≡ false) × Unique docs

if_self : (b : Bool) → (if b then true else false) ≡ b
if_self true = refl
if_self false = refl

among : ℕ → List ℕ → Bool
among id [] = false
among id (k ∷ ks) = if k == id then true else among id ks

docs_under-absent :
    (path : Text) (docs : List (ℕ × Doc)) (set : List Text) (id : ℕ)
    → contains_key id docs ≡ false
    → among id (docs_under path docs set).0 ≡ false
unfolding docs_under among contains_key
docs_under-absent path [] set id absent = refl
docs_under-absent path ((k, d) ∷ docs) set id absent =
    elim (Bool-cases (is_under path d.abs_filename)) [
      | inl e ↦
          rw e (
            ground
              (arith, docs_under-absent path docs (set_insert_all (keys d.subscribers) set) id))
      | inr e ↦ rw e (ground (arith, docs_under-absent path docs set id))
    ]

among_front :
    (b : Bool) (k id : ℕ) (ks : List ℕ)
    → among id (if b then k ∷ ks else ks)
      ≡ (if k == id then (if b then true else among id ks) else among id ks)
unfolding among
among_front true k id ks = refl
among_front false k id ks = ground arith

docs_under-among :
    (path : Text) (docs : List (ℕ × Doc)) (set : List Text) (id : ℕ) (doc : Doc)
    → Unique docs
    → lookup id docs ≡ some doc
    → among id (docs_under path docs set).0 ≡ is_under path doc.abs_filename
unfolding docs_under lookup
docs_under-among path [] set id doc unique found = absurd (cc)
docs_under-among path ((k, d) ∷ docs) set id doc (once, unique) found =
    let here = is_under path d.abs_filename in
    let set' = if here then set_insert_all (keys d.subscribers) set else set in
    let front = among_front here k id (docs_under path docs set').0 in
    elim (Bool-cases (k == id)) [
      | inl e ↦
          let is : k ≡ id = (nat_eq.beq_iff k id).0 e in
          let same : some d ≡ some doc = rw e at found in
          let same_doc : d ≡ doc = cc in
          let absent : among id (docs_under path docs set').0 ≡ false =
            docs_under-absent path docs set' id (rw (← is) once) in
          front
          ∙ rw e (rw absent (if_self here))
          ∙ ap (λ (x : Doc). is_under path x.abs_filename) same_doc
      | inr e ↦ front ∙ rw e (docs_under-among path docs set' id doc unique (rw e at found))
    ]

lookup-remove_remote_doc :
    (host : Text) (id : ℕ) (key : Text × ℕ) (r : RemoteDocs)
    → lookup key (remove_remote_doc host id r).docs
      ≡ (if pair_eq.beq (host, id) key then none else lookup key r.docs)
unfolding remove_remote_doc
lookup-remove_remote_doc host id key r = elim (Option-cases (lookup (host, id) r.docs)) [
  | inl e ↦ elim (Bool-cases (pair_eq.beq (host, id) key)) [
    | inl same ↦
        let is : (host, id) ≡ key = (pair_eq.beq_iff (host, id) key).0 same in
        rw (e, remove_remote_doc) (rw same (rw (← is) e))
    | inr other ↦ rw (e, remove_remote_doc) (rw other refl)
  ]
  | inr (d, e) ↦ rw (e, remove_remote_doc) (lookup-remove (host, id) key r.docs)
]

module _ (disk : Disk) where
  remove_docs-host : (ids : List ℕ) (s : Server) → (remove_docs disk ids s).1.host_id ≡ s.host_id
  unfolding remove_docs
  remove_docs-host [] s = refl
  remove_docs-host (id ∷ ids) s = remove_docs-host ids _

  lookup-remove_docs :
      (ids : List ℕ) (s : Server) (id : ℕ)
      → lookup id (remove_docs disk ids s).1.docs
        ≡ (if among id ids then none else lookup id s.docs)
  unfolding remove_docs among
  lookup-remove_docs [] s id = refl
  lookup-remove_docs (k ∷ ids) s id =
      lookup-remove_docs ids
        (record s {
          docs = remove k s.docs;
          remote_docs = remove_remote_doc s.host_id k s.remote_docs;
        })
        id
      ∙ rw (lookup-remove k id s.docs) (ground arith)

  -- The next state of the loop.
  abbrev without : ℕ → Server → Server
  without k s = record s {
    docs = remove k s.docs;
    remote_docs = remove_remote_doc s.host_id k s.remote_docs;
  }

  remote-remove_docs :
      (ids : List ℕ) (s : Server) (id : ℕ)
      → lookup (s.host_id, id) (remove_docs disk ids s).1.remote_docs.docs
        ≡ (if among id ids then none else lookup (s.host_id, id) s.remote_docs.docs)
  unfolding remove_docs among
  remote-remove_docs [] s id = refl
  remote-remove_docs (k ∷ ids) s id =
      remote-remove_docs ids (without k s) id
      ∙ rw (lookup-remove_remote_doc s.host_id k (s.host_id, id) s.remote_docs)
          (ground (arith, beq_self s.host_id))

close-state :
    (disk : Disk) (file : FileDesc) (delete : Bool) (path : Text) (s : Server)
    → find_docs_and_path_to_delete file s ≡ some (closing_under path s)
    → (handle_close_file_locally disk file delete s).2
      ≡ (remove_docs disk (docs_under path s.docs []).0 s).1
unfolding handle_close_file_locally closing_under
close-state disk file delete path s found =
    elim (Bool-cases (delete && not (delete_path disk (some path)))) [
      | inl e ↦ rw (found, handle_close_file_locally) (rw e refl)
      | inr e ↦ rw (found, handle_close_file_locally) (rw e refl)
    ]

-- The project that a descriptor names, and the path in a project at `root`.
abbrev pub project_of : FileDesc → Text
project_of (project id) = id
project_of (project_file id _) = id

abbrev pub place_in : Text → FileDesc → Text
place_in root (project _) = root
place_in root (project_file _ file) = join root file

-- Whether a document stands at a path or below it.
abbrev pub stands_under : Text → PathId → Bool
stands_under path (path_id p) = path_starts_with p path
stands_under path (buffer_id _) = false

is_under-stands_under : (path : Text) (p : PathId) → is_under path p ≡ stands_under path p
is_under-stands_under path (path_id p) = refl
is_under-stands_under path (buffer_id p) = refl

find-closing_under :
    (file : FileDesc) (p : Project) (s : Server)
    → lookup (project_of file) s.projects ≡ some p
    → text_beq (project_of file) reserved_buffers_project ≡ false
    → text_beq (project_of file) reserved_files_project ≡ false
    → find_docs_and_path_to_delete file s ≡ some (closing_under (place_in p.root file) s)
unfolding find_docs_and_path_to_delete
find-closing_under (project id) p s found b f = rw (found, find_docs_and_path_to_delete) refl
find-closing_under (project_file id file) p s found b f =
    rw (found, find_docs_and_path_to_delete) (rw b (rw f refl))

-- Closing or deleting a declared project, or a file or directory of it, removes exactly the open
-- documents whose file is at the path or below it, which is the root of the project, or the path of
-- the file joined to the root, and with each the remote document that this host keeps of it for its
-- editor, also where the file system then refuses to delete. Every other document stays as it is,
-- and so does the remote document that this host keeps of it, provided that no id stands twice in
-- the table, and that the project has neither of the reserved names.
pub handle_close_file_locally-removes :
    (disk : Disk) (file : FileDesc) (delete : Bool) (p : Project) (s : Server) (id : ℕ) (doc : Doc)
    → lookup (project_of file) s.projects ≡ some p
    → text_beq (project_of file) reserved_buffers_project ≡ false
    → text_beq (project_of file) reserved_files_project ≡ false
    → Unique s.docs
    → lookup id s.docs ≡ some doc
    → let s' = (handle_close_file_locally disk file delete s).2 in
      let gone = stands_under (place_in p.root file) doc.abs_filename in
      (lookup id s'.docs ≡ (if gone then none else some doc))
      × (lookup (s.host_id, id) s'.remote_docs.docs
          ≡ (if gone then none else lookup (s.host_id, id) s.remote_docs.docs))
handle_close_file_locally-removes disk file delete p s id doc declared b f unique found =
    let path = place_in p.root file in
    let closing = find-closing_under file p s declared b f in
    let ids = (docs_under path s.docs []).0 in
    let is_among =
      docs_under-among path s.docs [] id doc unique found
      ∙ is_under-stands_under path doc.abs_filename in
    rw (close-state disk file delete path s closing) (
      lookup-remove_docs disk ids s id ∙ rw is_among (rw found refl),
      remote-remove_docs disk ids s id ∙ rw is_among refl,
    )
