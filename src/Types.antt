-- ===== src/Types.antt =====
-- The operations and instructions exchanged with the editor (collab_mode/src/types.rs).
pub mod Ids
pub mod Files
use collab_mode.Prelude.{ℕ, List, Text}

pub data EditorOp : Type 0 where
  ins : ℕ → Text → EditorOp
  del : ℕ → Text → EditorOp
  undo : ℕ → EditorOp
  redo : ℕ → EditorOp

pub data EditorOpKind : Type 0 where
  original undo redo : EditorOpKind

unfoldable pub kind : EditorOp → EditorOpKind
kind (ins _ _) = EditorOpKind.original
kind (del _ _) = EditorOpKind.original
kind (undo _) = EditorOpKind.undo
kind (redo _) = EditorOpKind.redo

pub record Edit : Type 0 where
  pub pos : ℕ
  pub content : Text

-- The edits of one instruction all refer to the same text.
pub data EditInstruction : Type 0 where
  ins : List Edit → EditInstruction
  del : List Edit → EditInstruction

pub record EditorFatOp : Type 0 where
  pub op : EditorOp
  pub group_seq : ℕ

pub record EditorLeanOp : Type 0 where
  pub op : EditInstruction
  pub site_id : ℕ
