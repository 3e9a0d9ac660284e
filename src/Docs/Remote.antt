-- ===== src/Docs/Remote.antt =====
-- The documents that other hosts serve, or this host to its own editor, with the table that finds
-- them by descriptor: `RemoteDoc` and `RemoteDocs` (collab_mode/src/server.rs).
pub mod Laws
use collab_mode.Prelude.{
  ℕ, ◌==◌, ltb, leb, ◌&&◌, add_u64, Bool, true, false, not, Option, none, some, List, [], ◌∷◌, ◌++◌,
  reverse, Text, length, take, drop, if◌then◌else◌, ◌>>=◌,
}
use collab_mode.Map.{text_eq, nat_eq, pair_eq, lookup, insert, remove}
use collab_mode.Types.{Edit, EditInstruction}
use collab_mode.Types.Files.{FileDesc, EditorFileDesc, editor_desc_eq, new_editor_desc}
use collab_mode.Engine.{OpRecord}
use collab_mode.Engine.Client.{ClientEngine, client_editor_len}

-- The gap buffer is the text it holds.
pub record RemoteDoc : Type 0 where
  pub name : Text
  pub file_desc : FileDesc
  pub next_site_seq : ℕ
  pub remote_op_buffer : List OpRecord
  pub engine : ClientEngine
  pub buffer : Text

-- The documents by host and id, and their ids by descriptor.
pub record RemoteDocs : Type 0 where
  pub docs : List ((Text × ℕ) × RemoteDoc)
  pub editor_map : List (EditorFileDesc × ℕ)

abbrev pub no_remote_docs : RemoteDocs
no_remote_docs = record { docs = []; editor_map = [] }

unfoldable pub insert_remote_doc : Text → ℕ → RemoteDoc → EditorFileDesc → RemoteDocs → RemoteDocs
insert_remote_doc host doc_id d desc remote = record {
  docs = insert (host, doc_id) d remote.docs;
  editor_map = insert desc doc_id remote.editor_map;
}

abbrev pub with_id {ℓ} : {A : Type ℓ} → ℕ → Option A → Option (ℕ × A)
with_id doc_id none = none
with_id doc_id (some d) = some (doc_id, d)

-- `get_by_editor_desc` and `get_mut_by_editor_desc`.
unfoldable pub get_by_editor_desc : EditorFileDesc → RemoteDocs → Option (ℕ × RemoteDoc)
get_by_editor_desc desc remote = elim (lookup desc remote.editor_map) [
  | none ↦ none
  | some doc_id ↦ with_id doc_id (lookup (desc.host_id, doc_id) remote.docs)
]

-- `RemoteDocs::remove`
unfoldable pub remove_remote_doc : Text → ℕ → RemoteDocs → RemoteDocs
unfolding new_editor_desc
remove_remote_doc host doc_id remote = elim (lookup (host, doc_id) remote.docs) [
  | none ↦ remote
  | some d ↦ (record {
    docs = remove (host, doc_id) remote.docs;
    editor_map = remove (new_editor_desc d.file_desc host) remote.editor_map;
  })
]

unfoldable pub remove_by_editor_desc : EditorFileDesc → RemoteDocs → RemoteDocs
remove_by_editor_desc desc remote = elim (lookup desc remote.editor_map) [
  | none ↦ remote
  | some doc_id ↦ (record {
    docs = remove (desc.host_id, doc_id) remote.docs;
    editor_map = remove desc remote.editor_map;
  })
]

-- What is written through `get_mut`.
unfoldable pub write_remote_doc : Text → ℕ → RemoteDoc → RemoteDocs → RemoteDocs
write_remote_doc host doc_id d remote = record remote { docs = insert (host, doc_id) d remote.docs }

-- `buffer.insert_many`, after the test that the position is in the buffer; false is the error.
unfoldable pub insert_many : List Edit → Text → Bool × Text
insert_many [] buffer = (true, buffer)
insert_many (e ∷ edits) buffer =
    let rest = insert_many edits (take e.pos buffer ++ (e.content ++ drop e.pos buffer)) in
    if ltb (length buffer) e.pos then (false, buffer) else rest

-- `buffer.drain`, which panics where the range ends behind the buffer.
unfoldable pub drain : List Edit → Text → Option Text
drain [] buffer = some buffer
drain (e ∷ edits) buffer =
    let end_pos = add_u64 e.pos (length e.content) in
    let rest = drain edits (take e.pos buffer ++ drop end_pos buffer) in
    if leb e.pos end_pos && leb end_pos (length buffer) then rest else none

-- The match on the instruction in `Doc::apply_op` and in `apply_edit_instruction_unchecked`.
unfoldable pub apply_instruction : EditInstruction → Text → Option (Bool × Text)
unfolding insert_many drain
apply_instruction (EditInstruction.ins edits) buffer = some (insert_many (reverse edits) buffer)
apply_instruction (EditInstruction.del edits) buffer =
    drain (reverse edits) buffer >>= λ b. some (true, b)

unfoldable pub apply_edit_instruction_unchecked :
    EditInstruction → RemoteDoc → Option (Bool × RemoteDoc)
unfolding apply_instruction
apply_edit_instruction_unchecked instruction d =
    apply_instruction instruction d.buffer >>= λ r. some (r.0, record d { buffer = r.1 })

-- True is `Ok(())`.
unfoldable pub verify_buffer_engine_sync : RemoteDoc → Bool
unfolding client_editor_len
verify_buffer_engine_sync d = client_editor_len d.engine == length d.buffer

unfoldable pub apply_edit_instruction : EditInstruction → RemoteDoc → Option (Bool × RemoteDoc)
unfolding apply_edit_instruction_unchecked verify_buffer_engine_sync
apply_edit_instruction instruction d = apply_edit_instruction_unchecked instruction d >>= λ r.
    some ((if r.0 then verify_buffer_engine_sync r.1 else false), r.1)
