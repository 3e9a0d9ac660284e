-- ===== src/Tests/Engines.antt =====
-- The theorems on the engines at concrete inputs.
use mathlib.Core.Option
use collab_mode.Prelude.{◌≡◌, refl, some, arith, length}
use collab_mode.FatOp.{op_operation, quatradic_transform}
use collab_mode.FatOp.Converge.{apply_ops}
use collab_mode.Document.{apply, Fits, growth}
use collab_mode.Engine.History.{ops_after, nth_in_undo_queue}
use collab_mode.Engine.Server.{process_ops, global_ops_after}
use collab_mode.Engine.Server.Timeline.{
  IsValid, after, answer, unseen, seen, process_ops-IsValid, apply_ops-process_ops,
}
use collab_mode.Engine.Client.Remote.{take_remote}
use collab_mode.Engine.Client.Remote.Document.{apply_ops-take_remote}
use collab_mode.Engine.Client.Remote.Agree.{ops_of, take_all, ops_of-process_ops}
use collab_mode.Engine.Client.Remote.Queue.{
  label, nth_in_undo_queue-take_remote, nth_in_undo_queue-joined_late,
}
use collab_mode.Tests.Sample.{abcd, fat, del_bc, ops2, server, client}

process_ops-IsValid_example :
    IsValid (after server ops2 0)
    × (length (answer server ops2 0) ≡ 2)
    × (global_ops_after (after server ops2 0) 1 ≡ answer server ops2 0)
process_ops-IsValid_example =
    process_ops-IsValid server ops2 0 (record { counted = refl; numbered = (refl, tt) })
      (omega arith)

apply_ops-process_ops_example :
    apply_ops (after server ops2 0).gh.global abcd
    ≡ apply_ops (quatradic_transform (unseen server 0) ops2).0 (apply_ops ops2 (seen server 0 abcd))
unfolding Fits growth ops_after
apply_ops-process_ops_example =
    apply_ops-process_ops server ops2 0 abcd (omega arith) (omega arith) (omega arith) (omega arith)
      (omega arith)

apply_ops-take_remote_example :
    apply_ops (take_remote (client 0) (fat (some 1) del_bc 1) 1).1.gh.local (apply del_bc abcd)
    ≡ apply (take_remote (client 0) (fat (some 1) del_bc 1) 1).0.op (apply_ops ops2 abcd)
unfolding Fits growth
apply_ops-take_remote_example =
    apply_ops-take_remote (client 0) (fat (some 1) del_bc 1) 1 abcd (omega arith) (omega arith)
      (omega arith) (omega arith)

ops_of-process_ops_example :
    ops_of (process_ops server ops2 0).0
    ≡ ops_of (take_all (client 0) (ops_after server.gh 0)).gh.local
ops_of-process_ops_example = ops_of-process_ops server (client 0) 0

nth_in_undo_queue-take_remote_example :
    Option.map label (nth_in_undo_queue (take_remote (client 0) (fat (some 1) del_bc 1) 1).1.gh 1)
    ≡ Option.map label (nth_in_undo_queue (client 0).gh 1)
nth_in_undo_queue-take_remote_example =
    nth_in_undo_queue-take_remote (client 0) (fat (some 1) del_bc 1) 1 1 2 refl (omega arith)
      (omega arith) refl (omega arith) refl

nth_in_undo_queue-joined_late_example :
    nth_in_undo_queue (take_remote (client 5) (fat (some 6) del_bc 1) 6).1.gh 0
    ≡ some (take_remote (client 5) (fat (some 6) del_bc 1) 6).0
nth_in_undo_queue-joined_late_example =
    nth_in_undo_queue-joined_late (client 5) (fat (some 6) del_bc 1) 6 0 refl refl (omega arith)
      (omega arith)
