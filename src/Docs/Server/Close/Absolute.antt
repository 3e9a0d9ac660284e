-- ===== src/Docs/Server/Close/Absolute.antt =====
-- Closing a file that is in no project from the editor (`handle_close_file_from_editor`,
-- collab_mode/src/server.rs).
use mathlib.Core.List.{reverse-append, reverse-cons}
use collab_mode.Prelude.{
  ℕ, ◌≡◌, refl, ap, ◌==◌, Bool, true, false, inl, inr, Bool-cases, none, some, List, [], ◌∷◌, ◌++◌,
  reverse, Text, All,
}
use collab_mode.Types.Files.{project_file, trim_start, trim_slashes, reserved_files_project}
use collab_mode.Paths.{is_absolute, components, path_starts_with, path_beq}
use collab_mode.Docs.Serve.{Doc, PathId, buffer_id, path_id}
use collab_mode.Docs.Server.{done, resp, Disk, Server, matches, resend_watch_files, path_id_beq}
use collab_mode.Map.{text_eq, text_beq}
use collab_mode.Map.Laws.{beq_self}
use collab_mode.Docs.Server.Requested.{first_match}
use collab_mode.Docs.Server.Close.{
  handle_close_file_locally, handle_close_file_from_editor, answer_closed, gone,
}

trim_start-relative : (s : Text) → is_absolute (trim_start s) ≡ false
unfolding trim_start is_absolute
trim_start-relative [] = refl
trim_start-relative (c ∷ s) = elim (Bool-cases (c == 47)) [
  | inl e ↦ rw e (trim_start-relative s)
  | inr e ↦ rw e e
]

trim_start-append :
    (xs : Text) (c : ℕ) → (c == 47) ≡ false → trim_start (xs ++ c ∷ []) ≡ trim_start xs ++ c ∷ []
unfolding trim_start
trim_start-append [] c e = rw e refl
trim_start-append (x ∷ xs) c e = elim (Bool-cases (x == 47)) [
  | inl same ↦ rw same (trim_start-append xs c e)
  | inr other ↦ rw other refl
]

trim_end-relative :
    (s : Text) → is_absolute s ≡ false → is_absolute (reverse (trim_start (reverse s))) ≡ false
unfolding is_absolute
trim_end-relative [] e = unfold trim_start in refl
trim_end-relative (c ∷ s) e = rw (reverse-cons c s) (
    rw (trim_start-append (reverse s) c e)
      (rw (reverse-append (trim_start (reverse s)) (c ∷ [])) e))

trim_slashes-relative : (s : Text) → is_absolute (trim_slashes s) ≡ false
unfolding trim_slashes
trim_slashes-relative s = trim_end-relative (trim_start s) (trim_start-relative s)

-- An open document has an absolute path, or none.
abbrev pub HasAbsolute : Doc → PathId → Type 0
HasAbsolute doc (buffer_id _) = Unit {0}
HasAbsolute doc (path_id p) = is_absolute p ≡ true

path_beq-relative :
    (p q : Text) → is_absolute p ≡ true → is_absolute q ≡ false → path_beq p q ≡ false
unfolding path_beq path_starts_with components
path_beq-relative p q absolute relative = rw absolute (rw relative refl)

path_id_beq-relative :
    (doc : Doc) (p : PathId) (q : Text)
    → HasAbsolute doc p
    → is_absolute q ≡ false
    → path_id_beq p (path_id q) ≡ false
unfolding path_id_beq
path_id_beq-relative doc (buffer_id _) q h relative = refl
path_id_beq-relative doc (path_id p) q h relative = path_beq-relative p q h relative

first_match-relative :
    (docs : List (ℕ × Doc)) (q : Text)
    → All (λ e. HasAbsolute e.1 e.1.abs_filename) docs
    → is_absolute q ≡ false
    → first_match (path_id q) docs ≡ none
unfolding first_match matches
first_match-relative [] q h relative = refl
first_match-relative ((id, doc) ∷ docs) q (here, h) relative =
    rw (path_id_beq-relative doc doc.abs_filename q here relative)
      (first_match-relative docs q h relative)

locally-unclosed :
    (disk : Disk) (file : Text) (delete : Bool) (s : Server)
    → All (λ e. HasAbsolute e.1 e.1.abs_filename) s.docs
    → is_absolute file ≡ false
    → handle_close_file_locally disk (project_file reserved_files_project file) delete s
      ≡ (some [], resend_watch_files s ∷ [], s)
unfolding handle_close_file_locally text_beq
locally-unclosed disk file true s h relative =
    rw (first_match-relative s.docs file h relative, handle_close_file_locally) refl
locally-unclosed disk file false s h relative =
    rw (first_match-relative s.docs file h relative, handle_close_file_locally) refl

-- The editor cannot close or delete a document that is in no project: where all open documents have
-- absolute paths, its request for the absolute path of one of them, with this host's own id, is
-- answered with success, and the state of the server is what it was, so that the document is open
-- still; nothing goes out but the answer and the paths to watch.
pub handle_close_file_from_editor-unclosed :
    (disk : Disk) (c : ℕ) (rest : Text) (delete : Bool) (s : Server)
    → All (λ e. HasAbsolute e.1 e.1.abs_filename) s.docs
    → handle_close_file_from_editor disk
        (record { host_id = s.host_id; project_id = reserved_files_project; file = c ∷ rest })
        delete
        s
      ≡ (resend_watch_files s ∷ resp done ∷ [], s)
unfolding handle_close_file_from_editor
handle_close_file_from_editor-unclosed disk c rest delete s h =
    let file = trim_slashes (c ∷ rest) in
    rw (beq_self s.host_id) (
      ap (answer_closed s.host_id (gone (project_file reserved_files_project file) delete))
        (locally-unclosed disk file delete s h (trim_slashes-relative (c ∷ rest))))
