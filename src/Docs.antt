-- ===== src/Docs.antt =====
-- The documents of the document server (collab_mode/src/server.rs): how a change of a file on disk
-- becomes operations.
pub mod External
pub mod Remote
pub mod Serve
pub mod Follow
pub mod Server
use collab_mode.Prelude.{ℕ, false, none, List, [], ◌∷◌, Text, length, reverse, add_u64}
use collab_mode.Engine.{add_u32}
use collab_mode.Op.{Op, OpKind, original, ins, mark}
use collab_mode.FatOp.{FatOp}

-- `dissimilar::Chunk`, the pieces of a difference of two texts.
pub data Chunk : Type 0 where
  equal : Text → Chunk
  insert : Text → Chunk
  delete : Text → Chunk

-- The loop over the chunks; `pos` counts the characters of the old text so far.
unfoldable pub raw_ops : List Chunk → ℕ → ℕ → List Op
raw_ops [] pos site = []
raw_ops (equal s ∷ chunks) pos site = raw_ops chunks (add_u64 pos (length s)) site
raw_ops (insert s ∷ chunks) pos site = ins (pos, s) site ∷ raw_ops chunks pos site
raw_ops (delete s ∷ chunks) pos site =
    mark ((pos, s) ∷ []) false site ∷ raw_ops chunks (add_u64 pos (length s)) site

unfoldable pub number_ops : List Op → ℕ → List (FatOp Op) × ℕ
number_ops [] next_seq = ([], next_seq)
number_ops (op ∷ ops) next_seq =
    let (rest, last) = number_ops ops (add_u32 next_seq 1) in
    (
      record { seq = none; op = op; site_seq = next_seq; kind = original; group_seq = 0 } ∷ rest,
      last,
    )

-- The operations, the last position first, and the next sequence number.
unfoldable pub chunks_to_ops : List Chunk → ℕ → ℕ → List (FatOp Op) × ℕ
unfolding raw_ops number_ops
chunks_to_ops chunks site next_seq = number_ops (reverse (raw_ops chunks 0 site)) next_seq
