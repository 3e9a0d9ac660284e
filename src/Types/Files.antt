-- ===== src/Types/Files.antt =====
-- Descriptors of files, and projects (collab_mode/src/types.rs).
use collab_mode.Prelude.{
  ◌==◌, ◌≡◌, ◌↔◌, Bool, true, false, ◌&&◌, [], ◌∷◌, reverse, arith, Text, codes, if◌then◌else◌,
}
use collab_mode.Map.{Eq, text_beq, text_beq_iff}

abbrev pub reserved_buffers_project : Text
reserved_buffers_project = codes "_buffers"

abbrev pub reserved_files_project : Text
reserved_files_project = codes "_files"

pub data FileDesc : Type 0 where
  project : Text → FileDesc
  project_file : Text → Text → FileDesc

unfoldable pub file_desc_beq : FileDesc → FileDesc → Bool
file_desc_beq (project a) (project b) = text_beq a b
file_desc_beq (project _) (project_file _ _) = false
file_desc_beq (project_file _ _) (project _) = false
file_desc_beq (project_file a f) (project_file b g) = text_beq a b && text_beq f g

pub file_desc_beq_iff : (a b : FileDesc) → (file_desc_beq a b ≡ true) ↔ (a ≡ b)
unfolding file_desc_beq
file_desc_beq_iff (project a) (project b) = ground (arith, text_beq_iff a b)
file_desc_beq_iff (project _) (project_file _ _) = ground arith
file_desc_beq_iff (project_file _ _) (project _) = ground arith
file_desc_beq_iff (project_file a f) (project_file b g) =
    ground (arith, text_beq_iff a b, text_beq_iff f g)

instance abbrev pub file_desc_eq : Eq FileDesc
file_desc_eq = record { beq = file_desc_beq; beq_iff = file_desc_beq_iff }

-- An empty `file` stands for the project itself.
pub record EditorFileDesc : Type 0 where
  pub host_id : Text
  pub project_id : Text
  pub file : Text

unfoldable pub editor_desc_beq : EditorFileDesc → EditorFileDesc → Bool
editor_desc_beq a b =
    text_beq a.host_id b.host_id && (text_beq a.project_id b.project_id && text_beq a.file b.file)

pub editor_desc_beq_iff : (a b : EditorFileDesc) → (editor_desc_beq a b ≡ true) ↔ (a ≡ b)
unfolding editor_desc_beq
editor_desc_beq_iff a b = ground (
  arith,
  text_beq_iff a.host_id b.host_id,
  text_beq_iff a.project_id b.project_id,
  text_beq_iff a.file b.file,
)

instance abbrev pub editor_desc_eq : Eq EditorFileDesc
editor_desc_eq = record { beq = editor_desc_beq; beq_iff = editor_desc_beq_iff }

-- `EditorFileDesc::new`
unfoldable pub new_editor_desc : FileDesc → Text → EditorFileDesc
new_editor_desc (project id) host = record { host_id = host; project_id = id; file = [] }
new_editor_desc (project_file id f) host = record { host_id = host; project_id = id; file = f }

abbrev pub is_empty_text : Text → Bool
is_empty_text [] = true
is_empty_text (_ ∷ _) = false

unfoldable pub is_project : EditorFileDesc → Bool
is_project d = is_empty_text d.file

-- `str::trim_matches('/')`
unfoldable pub trim_start : Text → Text
trim_start [] = []
trim_start (c ∷ s) = if c == 47 then trim_start s else c ∷ s

unfoldable pub trim_slashes : Text → Text
unfolding trim_start
trim_slashes s = reverse (trim_start (reverse (trim_start s)))

-- `impl From<EditorFileDesc> for FileDesc`
unfoldable pub file_desc_of : EditorFileDesc → FileDesc
unfolding trim_slashes
file_desc_of d =
    if is_empty_text d.file
    then project d.project_id
    else project_file d.project_id (trim_slashes d.file)

pub record Project : Type 0 where
  pub name : Text
  pub root : Text
