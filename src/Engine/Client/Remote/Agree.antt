-- ===== src/Engine/Client/Remote/Agree.antt =====
-- The client and the server transform the same operations in different orders: the server takes
-- the client's operations one by one, the client takes those of the other sites one by one.
use collab_mode.Prelude.{ℕ, ◌+◌, ◌≡◌, refl, sym, ap, ◌∙◌, List, [], ◌∷◌, map}
use collab_mode.Op.{Op}
use collab_mode.FatOp.{op_operation, fat_transform, symmetric_transform, quatradic_transform}
use collab_mode.FatOp.Transpose.{quatradic_transform_comm}
use collab_mode.Engine.{OpRecord, add_u32}
use collab_mode.Engine.History.{ops_after}
use collab_mode.Engine.Server.{ServerEngine, assign_seqs, process_ops}
use collab_mode.Engine.Client.{ClientEngine}
use collab_mode.Engine.Client.Remote.{update_undo_deltas, take_remote}

abbrev pub ops_of : List OpRecord → List Op
ops_of os = map (λ o. o.op) os

-- The client after it has received operations of other sites, with consecutive numbers.
abbrev pub take_all : ClientEngine → List OpRecord → ClientEngine
take_all e [] = e
take_all e (r ∷ rs) = take_all (take_remote e r (add_u32 e.current_seq 1)).1 rs

ops_of-update_undo_deltas :
    (n : ℕ) (os : List OpRecord) → ops_of (update_undo_deltas n os) ≡ ops_of os
unfolding update_undo_deltas
ops_of-update_undo_deltas n [] = refl
ops_of-update_undo_deltas n (o ∷ os) = ap (o.op ∷◌) (ops_of-update_undo_deltas (n + 1) os)

-- Transformation reads only the operations, not their meta information.
ops_of-symmetric_transform :
    (r : OpRecord) (os ps : List OpRecord)
    → ops_of os ≡ ops_of ps
    → ops_of (symmetric_transform r os).1 ≡ ops_of (symmetric_transform r ps).1
unfolding symmetric_transform
ops_of-symmetric_transform r [] [] h = refl
ops_of-symmetric_transform r [] (p ∷ ps) h = absurd (cc)
ops_of-symmetric_transform r (o ∷ os) [] h = absurd (cc)
ops_of-symmetric_transform r (o ∷ os) (p ∷ ps) h =
    let same : o.op ≡ p.op = cc in
    let rest : ops_of os ≡ ops_of ps = cc in
    let moved : fat_transform r o ≡ fat_transform r p =
      ap (λ x. fat_transform r (record o { op = x })) same in
    cc (same, moved, ops_of-symmetric_transform (fat_transform r o) os ps rest)

ops_of-take_all :
    (rs os : List OpRecord) (e : ClientEngine)
    → ops_of e.gh.local ≡ ops_of os
    → ops_of (take_all e rs).gh.local ≡ ops_of (quatradic_transform os rs).0
unfolding quatradic_transform take_remote
ops_of-take_all [] os e h = h
ops_of-take_all (r ∷ rs) os e h =
    ops_of-take_all rs (symmetric_transform r os).1 (take_remote e r (add_u32 e.current_seq 1)).1 (
      ops_of-update_undo_deltas 0 (symmetric_transform r e.gh.local).1
      ∙ ops_of-symmetric_transform r e.gh.local os h)

ops_of-assign_seqs : (n : ℕ) (os : List OpRecord) → ops_of (assign_seqs n os).0 ≡ ops_of os
unfolding assign_seqs
ops_of-assign_seqs n [] = refl
ops_of-assign_seqs n (o ∷ os) = ap (o.op ∷◌) (ops_of-assign_seqs (add_u32 n 1) os)

-- The operations that the server returns for the local operations of a client are, one by one, the
-- local operations that the client has once it has received what the server had put before them.
pub ops_of-process_ops :
    (s : ServerEngine) (e : ClientEngine) (context : ℕ)
    → ops_of (process_ops s e.gh.local context).0
      ≡ ops_of (take_all e (ops_after s.gh context)).gh.local
unfolding process_ops
ops_of-process_ops s e context =
    ops_of-assign_seqs s.current_seq (quatradic_transform (ops_after s.gh context) e.gh.local).1
    ∙ ap (λ (r : List OpRecord × List OpRecord). ops_of r.1)
        (quatradic_transform_comm (ops_after s.gh context) e.gh.local)
    ∙ sym (ops_of-take_all (ops_after s.gh context) e.gh.local e refl)
