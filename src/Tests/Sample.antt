-- ===== src/Tests/Sample.antt =====
-- The data that the tests share.
use collab_mode.Prelude.{ℕ, false, Option, none, some, List, [], ◌∷◌}
use collab_mode.Op.{Op, OpKind, ins, mark}
use collab_mode.Document.{Document, cells}
use collab_mode.InternalDoc.{live}
use collab_mode.Engine.{OpRecord}
use collab_mode.Engine.Server.{ServerEngine}
use collab_mode.Engine.Client.{ClientEngine}

-- The document "abcd".
abbrev pub abcd : Document
abcd = cells (97 ∷ 98 ∷ 99 ∷ 100 ∷ [])

abbrev pub fat : Option ℕ → Op → ℕ → OpRecord
fat seq op site_seq = record {
  seq = seq;
  op = op;
  site_seq = site_seq;
  kind = OpKind.original;
  group_seq = 1;
}

-- Site 1 deletes "bc" while site 2 inserts "xy" between these characters, and then "z" in front.
abbrev pub del_bc : Op
del_bc = mark ((1, 98 ∷ 99 ∷ []) ∷ []) false 1

abbrev pub ins_xy : Op
ins_xy = ins (2, 120 ∷ 121 ∷ []) 2

abbrev pub ins_z : Op
ins_z = ins (0, 122 ∷ []) 2

abbrev pub ops1 : List OpRecord
ops1 = fat (some 1) del_bc 1 ∷ []

abbrev pub ops2 : List OpRecord
ops2 = fat none ins_xy 1 ∷ fat none ins_z 2 ∷ []

abbrev pub server : ServerEngine
server = record {
  gh = record { global = ops1; local = []; undo_queue = []; undo_tip = none };
  internal_doc = record { ranges = live 4 ∷ []; cursors = [] };
  current_seq = 1;
}

-- Site 2 with its two insertions pending; `base_seq` is the number at which it joined.
abbrev pub client : ℕ → ClientEngine
client base_seq = record {
  gh = record { global = []; local = ops2; undo_queue = 1 ∷ 2 ∷ []; undo_tip = none };
  internal_doc = record { ranges = live 7 ∷ []; cursors = [] };
  site_id = 2;
  current_seq = base_seq;
  current_site_seq = 2;
  last_site_seq_sent_out = 2;
}
