-- ===== src/Engine.antt =====
-- The engines of a document (collab_mode/src/engine.rs): the errors and what the parts share.
pub mod History
pub mod Server
pub mod Client
use collab_mode.Prelude.{ℕ, ◌+◌, ◌-◌, ◌%◌, ◌^◌, Option, some, List, ◌≡◌}
use collab_mode.Op.{Op}
use collab_mode.FatOp.{FatOp}
use collab_mode.Types.{EditorOp}

-- `crate::types::FatOp`
abbrev pub OpRecord : Type 0
OpRecord = FatOp Op

-- The message of `EngineError::UndoError`.
pub data UndoFailure : Type 0 where
  no_more_op_to_undo : UndoFailure
  no_ops_to_redo : UndoFailure
  context_mismatch : ℕ → ℕ → UndoFailure

pub data EngineError : Type 0 where
  op_missing : OpRecord → EngineError
  op_mismatch : OpRecord → OpRecord → EngineError
  seq_mismatch : ℕ → OpRecord → EngineError
  site_seq_mismatch : ℕ → EditorOp → EngineError
  seq_missing : OpRecord → EngineError
  empty_insert : EditorOp → EngineError
  delete_in_empty_doc : EngineError
  undo_error : UndoFailure → EngineError

pub data EngineResult {ℓ} (A : Type ℓ) : Type ℓ where
  ok : A → EngineResult A
  err : EngineError → EngineResult A

-- A method on a state: the state that it leaves stands beside the result, also beside an error.
-- `none` is a panic.
abbrev pub Outcome : Type 0 → Type 0 → Type 0
Outcome S A = Option (EngineResult A × S)

-- Addition of `u32`, which wraps in a release build, and a cast to `u32`.
abbrev pub add_u32 : ℕ → ℕ → ℕ
add_u32 a b = (a + b) % 2 ^ 32

abbrev pub as_u32 : ℕ → ℕ
as_u32 n = n % 2 ^ 32

abbrev pub sub_u32 : ℕ → ℕ → ℕ
sub_u32 a b = (a + 2 ^ 32 - b) % 2 ^ 32
