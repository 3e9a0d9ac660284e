-- ===== src/Tests/Puzzles.antt =====
-- The deOPT puzzle of the engine's own tests, run on the model.
use collab_mode.Prelude.{ℕ, ◌≡◌, refl, Option, none, some, List, [], ◌∷◌, ◌>>=◌}
use collab_mode.Op.{transform, transform_segments, transform_di, pos_less_than}
use collab_mode.Types.{EditorOp, EditorFatOp}
use collab_mode.InternalDoc.{Range, live, dead, new}
use collab_mode.Engine.{OpRecord, Outcome, ok, err}
use collab_mode.Engine.Server.{new_server, process_ops}
use collab_mode.Engine.Client.{ClientEngine, new_client, maybe_package_local_ops}
use collab_mode.Engine.Client.Local.{process_local_op}
use collab_mode.Engine.Client.Remote.{process_remote_op}

abbrev edit : EditorOp → ℕ → EditorFatOp
edit op group = record { op = op; group_seq = group }

abbrev state_of : {A : Type 0} → Outcome ClientEngine A → Option ClientEngine
state_of none = none
state_of (some (ok _, e)) = some e
state_of (some (err _, e)) = none

-- "abcd"; A deletes "a" and inserts "x" behind "c", B deletes "c".
client_a : Option ClientEngine
client_a =
    state_of (process_local_op (new_client 1 0 (new 4)) (edit (EditorOp.del 0 (97 ∷ [])) 1) 1)
    >>= λ e. state_of (process_local_op e (edit (EditorOp.ins 2 (120 ∷ [])) 2) 2)

client_b : Option ClientEngine
client_b =
    state_of (process_local_op (new_client 2 0 (new 4)) (edit (EditorOp.del 2 (99 ∷ [])) 1) 1)

abbrev receive_all : List OpRecord → ClientEngine → Option ClientEngine
receive_all [] e = some e
receive_all (o ∷ os) e =
    let further = λ (e : ClientEngine). receive_all os e in
    state_of (process_remote_op e o) >>= λ e. further e

server_ops : Option (List OpRecord × ClientEngine × ClientEngine)
server_ops = client_a >>= λ a. client_b >>= λ b. (maybe_package_local_ops a 1).0 >>= λ from_a.
    (maybe_package_local_ops b 1).0 >>= λ from_b.
    let (a_ops, server) = process_ops (new_server 0) from_a.ops from_a.context in
    let (b_ops, server') = process_ops server from_b.ops from_b.context in
    receive_all a_ops a >>= λ a. receive_all b_ops a >>= λ a.
    receive_all a_ops b >>= λ b. receive_all b_ops b >>= λ b. some (b_ops, a, b)

abbrev ranges_of : List OpRecord × ClientEngine × ClientEngine → List Range × List Range
ranges_of (_, a, b) = (a.internal_doc.ranges, b.internal_doc.ranges)

-- Both end with the same ranges, those of "bxd" with tombstones for "a" and "c".
deopt_puzzle :
    (server_ops >>= λ r. some (ranges_of r))
    ≡ some (dead 1 ∷ live 1 ∷ dead 1 ∷ live 2 ∷ [], dead 1 ∷ live 1 ∷ dead 1 ∷ live 2 ∷ [])
unfolding server_ops client_a client_b process_local_op process_remote_op maybe_package_local_ops
    process_ops new_server new_client new transform transform_segments transform_di pos_less_than
deopt_puzzle = refl
