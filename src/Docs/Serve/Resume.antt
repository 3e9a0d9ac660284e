-- ===== src/Docs/Serve/Resume.antt =====
-- A host that asks for operations it missed, and goes on editing.
use collab_mode.Prelude.{ℕ, suc, ◌+◌, ◌%◌, ◌^◌, ◌≡◌, refl, true, false, some, [], ◌∷◌, arith, Text}
use collab_mode.Map.{nat_eq, text_eq, lookup, insert}
use collab_mode.Map.Laws.{beq_self, lookup-insert}
use collab_mode.Config.{write_allowed}
use collab_mode.Engine.Client.{ContextOps}
use collab_mode.Docs.Serve.{
  Doc, Hosted, doc_fatal, first_site_seq, seq_matches, handle_op_from_client, handle_request_ops,
  set_doc,
}

module _ (context_ops : ContextOps) (host : Text) (doc : Doc) (hosted : Hosted)
    (found : lookup context_ops.doc hosted.docs ≡ some doc)
    (permitted : write_allowed hosted.config host ≡ true) where
  request_ops-found :
      (after : ℕ)
      → (handle_request_ops context_ops.doc after host hosted).1
        ≡ set_doc context_ops.doc
            (record doc { subscribers = insert host 0 doc.subscribers })
            hosted
  unfolding handle_request_ops
  request_ops-found after = rw (found, handle_request_ops) refl

  mismatch :
      (seq n : ℕ)
      → lookup host doc.subscribers ≡ some seq
      → first_site_seq context_ops.ops ≡ some n
      → seq_matches ((seq + 1) % 2 ^ 32) context_ops.ops ≡ false
      → handle_op_from_client context_ops host hosted
        ≡ some (true, (host, doc_fatal context_ops.doc ((seq + 1) % 2 ^ 32) n) ∷ [], hosted)
  unfolding handle_op_from_client
  mismatch seq n recorded first differs = rw permitted (
      rw (found, handle_op_from_client)
        (rw (recorded, handle_op_from_client) (rw differs (rw first refl))))

-- A host that has sent operations before, and asks for the ones it missed, cannot go on editing:
-- its request sets the number of its last operation back to 0, so that its next operations, which
-- go on counting, are answered with a fatal error for the document, and are not taken.
pub handle_request_ops-fatal :
    (context_ops : ContextOps) (host : Text) (doc : Doc) (hosted : Hosted) (after n : ℕ)
    → lookup context_ops.doc hosted.docs ≡ some doc
    → write_allowed hosted.config host ≡ true
    → first_site_seq context_ops.ops ≡ some (suc (suc n))
    → let hosted' = (handle_request_ops context_ops.doc after host hosted).1 in
      handle_op_from_client context_ops host hosted'
      ≡ some (true, (host, doc_fatal context_ops.doc 1 (suc (suc n))) ∷ [], hosted')
handle_request_ops-fatal context_ops host doc hosted after n found permitted first =
    let doc' : Doc = record doc { subscribers = insert host 0 doc.subscribers } in
    let differs : seq_matches 1 context_ops.ops ≡ false =
      unfold seq_matches in rw (first, seq_matches) (ground arith) in
    rw (request_ops-found context_ops host doc hosted found permitted after) (
      mismatch context_ops host doc' (set_doc context_ops.doc doc' hosted)
        (rw lookup-insert (rw (beq_self context_ops.doc) refl)) permitted 0 (suc (suc n))
        (rw lookup-insert (rw (beq_self host) refl)) first differs)
