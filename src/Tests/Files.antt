-- ===== src/Tests/Files.antt =====
-- The theorems on changes of files at concrete inputs.

use collab_mode.Prelude.{◌≡◌, refl, none, some, true, false, List, [], ◌∷◌, ◌++◌, codes, arith}
use collab_mode.FatOp.Converge.{apply_ops}
use collab_mode.Document.{Document, cells, shown}
use collab_mode.Map.{nat_eq, text_eq, lookup}
use collab_mode.Config.{default_config, write_allowed}
use collab_mode.Engine.{OpRecord}
use collab_mode.Engine.Client.{ContextOps}
use collab_mode.Types.Files.{project_file, reserved_buffers_project}
use collab_mode.Docs.Remote.{RemoteDoc}
use collab_mode.Docs.Serve.{
  buffer_id, Doc, Hosted, doc_fatal, handle_op_from_client, handle_request_ops,
}
use collab_mode.Docs.Serve.Resume.{handle_request_ops-fatal}
use collab_mode.Docs.Follow.{Numbered, buffer_ops, buffer_ops-Numbered}
use collab_mode.Tests.Sample.{fat, del_bc, server, client}
use collab_mode.Tests.Worlds.{bob}
use collab_mode.Docs.{Chunk, equal, insert, delete, chunks_to_ops}
use collab_mode.Docs.External.{old_text, new_text, chunks_to_ops-shown, chunks_to_ops-tombstone}

abbrev edit_chunks : List Chunk
edit_chunks =
    equal (codes "let x") ∷ delete (codes "yz") ∷ insert (codes "s") ∷ equal (codes " = 1;") ∷ []

chunks_to_ops-shown_example :
    shown (apply_ops (chunks_to_ops edit_chunks 9 1).0 (cells (codes "let xyz = 1;")))
    ≡ codes "let xs = 1;"
unfolding old_text new_text
chunks_to_ops-shown_example = chunks_to_ops-shown edit_chunks 9 1 (omega arith)

abbrev stale_chunks : List Chunk
stale_chunks = equal (codes "x") ∷ delete (codes "bc") ∷ equal (codes "d") ∷ []

-- The document shows "xbcd" with a tombstone behind "x", and the file has "xd".
abbrev behind_dead : Document
behind_dead = cells (codes "x") ++ (record { char = 97; live = false } ∷ cells (codes "bcd"))

chunks_to_ops-tombstone_example :
    (shown behind_dead ≡ codes "xbcd")
    × (new_text stale_chunks ≡ codes "xd")
    × (shown (apply_ops (chunks_to_ops stale_chunks 9 1).0 behind_dead) ≡ codes "xcd")
unfolding old_text
chunks_to_ops-tombstone_example =
    chunks_to_ops-tombstone (codes "x") (codes "a") (codes "bc") (codes "d") 9 1 (omega arith)

abbrev shared : Doc
shared = record {
  name = codes "notes";
  abs_filename = buffer_id (codes "notes");
  canon_filename = none;
  file_desc = project_file reserved_buffers_project (codes "notes");
  disk_file = none;
  engine = server;
  buffer = codes "abcd";
  subscribers = (bob, 4) ∷ [];
  last_saved_at = 0;
  next_external_site_seq = 1;
}

abbrev library : Hosted
library = record { config = default_config; docs = (7, shared) ∷ [] }

abbrev next_ops : ContextOps
next_ops = record { doc = 7; context = 0; ops = fat none del_bc 5 ∷ [] }

handle_request_ops-fatal_example :
    handle_op_from_client next_ops bob (handle_request_ops 7 0 bob library).1
    ≡ some (true, (bob, doc_fatal 7 1 5) ∷ [], (handle_request_ops 7 0 bob library).1)
unfolding write_allowed lookup
handle_request_ops-fatal_example =
    handle_request_ops-fatal next_ops bob shared library 0 3 refl refl refl

-- Of three operations the first follows the engine's number, the others leave a gap.
abbrev arriving : List OpRecord
arriving = fat (some 1) del_bc 1 ∷ fat (some 3) del_bc 3 ∷ fat (some 4) del_bc 4 ∷ []

abbrev followed : RemoteDoc
followed = record {
  name = codes "notes";
  file_desc = project_file reserved_buffers_project (codes "notes");
  next_site_seq = 1;
  remote_op_buffer = [];
  engine = client 0;
  buffer = codes "abcd";
}

buffer_ops-Numbered_example :
    (d' : RemoteDoc) × (more : List OpRecord) × ((buffer_ops 7 arriving followed).1 ≡ some d')
    × (d'.engine ≡ followed.engine)
    × (d'.remote_op_buffer ≡ more)
    × Numbered 0 0 d'.remote_op_buffer
unfolding Numbered
buffer_ops-Numbered_example =
    buffer_ops-Numbered 7 arriving followed ((1, refl), ((3, refl), ((4, refl), tt))) tt
