-- ===== src/Docs/Follow.antt =====
-- What a host does with the operations of a document that another host serves: they wait in a
-- buffer until the editor takes them (collab_mode/src/server.rs).
use collab_mode.Prelude.{
  ℕ, suc, ◌+◌, ◌==◌, ltb, Bool, not, ◌&&◌, Text, ◌++◌, ◌≡◌, inl, inr, refl, sym, ap, ◌∙◌,
  Bool-cases, Option, none, some, List, [], ◌∷◌, arith, length, append_assoc, append-nil, All,
  if◌then◌else◌,
}
use collab_mode.Map.{nat_eq, text_eq, pair_eq, lookup}
use collab_mode.FatOp.{fat_site}
use collab_mode.Engine.{OpRecord, add_u32, as_u32, sub_u32}
use collab_mode.Docs.Remote.{RemoteDoc, RemoteDocs, remove_remote_doc, write_remote_doc}

pub data Sent : Type 0 where
  stop_sending_ops : ℕ → Sent
  request_ops : ℕ → ℕ → Sent
  remote_ops_arrived : Option ℕ → Sent
  no_global_seq : Sent

unfoldable pub expected_gseq : RemoteDoc → ℕ
expected_gseq d = add_u32 (add_u32 d.engine.current_seq (as_u32 (length d.remote_op_buffer))) 1

-- The loop over the operations; `none` is the document that is given up.
unfoldable pub buffer_ops : ℕ → List OpRecord → RemoteDoc → List Sent × Option RemoteDoc
unfolding expected_gseq
buffer_ops doc_id [] d = ([], some d)
buffer_ops doc_id (op ∷ ops) d =
    let ignored = buffer_ops doc_id ops d in
    let pushed =
      buffer_ops doc_id ops (record d { remote_op_buffer = d.remote_op_buffer ++ op ∷ [] }) in
    elim op.seq [
      | none ↦ (no_global_seq ∷ [], none)
      | some gseq ↦
          (if ltb gseq (expected_gseq d)
            then ignored
            else if ltb (expected_gseq d) gseq
            then (request_ops doc_id (sub_u32 (expected_gseq d) 1) ∷ ignored.0, ignored.1)
            else pushed)
    ]

abbrev pub last_gseq : List OpRecord → Option ℕ
last_gseq [] = none
last_gseq (op ∷ []) = op.seq
last_gseq (op ∷ next ∷ ops) = last_gseq (next ∷ ops)

-- The notification after the loop: `old` is the buffer before it.
unfoldable pub arrived : Bool → List OpRecord → List OpRecord → List Sent
arrived not_ours old new =
    if not_ours && ltb (length old) (length new) && ltb 0 (length new)
    then remote_ops_arrived (last_gseq new) ∷ []
    else []

unfoldable pub handle_op_from_server :
    ℕ → List OpRecord → Text → RemoteDocs → List Sent × RemoteDocs
unfolding buffer_ops remove_remote_doc write_remote_doc arrived fat_site
handle_op_from_server doc_id [] host remote = ([], remote)
handle_op_from_server doc_id (first ∷ ops) host remote = elim (lookup (host, doc_id) remote.docs) [
  | none ↦ (stop_sending_ops doc_id ∷ [], remote)
  | some d ↦
      (let (out, result) = buffer_ops doc_id (first ∷ ops) d in
        let not_ours : Bool = not (fat_site first == d.engine.site_id) in
        elim result [
          | none ↦ (out, remove_remote_doc host doc_id remote)
          | some d' ↦ (
            out ++ arrived not_ours d.remote_op_buffer d'.remote_op_buffer,
            write_remote_doc host doc_id d' remote,
          )
        ])
]

-- The operations stand in the order of their global numbers, from `start` on.
unfoldable pub Numbered : ℕ → ℕ → List OpRecord → Type 0
Numbered current start [] = Unit
Numbered current start (op ∷ ops) =
    (op.seq ≡ some (add_u32 (add_u32 current (as_u32 start)) 1)) × Numbered current (suc start) ops

Numbered-append :
    (current start : ℕ) (ops : List OpRecord) (op : OpRecord)
    → op.seq ≡ some (add_u32 (add_u32 current (as_u32 (start + length ops))) 1)
    → Numbered current start ops
    → Numbered current start (ops ++ op ∷ [])
unfolding Numbered
Numbered-append current start [] op e ok =
    (e ∙ ap (λ k. some (add_u32 (add_u32 current (as_u32 k)) 1)) (omega arith), tt)
Numbered-append current start (o ∷ ops) op e (first, ok) = (
  first,
  Numbered-append current (suc start) ops op
      (e ∙ ap (λ k. some (add_u32 (add_u32 current (as_u32 k)) 1)) (omega arith)) ok,
)

-- The document after the loop: its buffer has grown at the end, and is numbered.
abbrev Buffered : RemoteDoc → Option RemoteDoc → Type 0
Buffered d result =
    (d' : RemoteDoc) × (more : List OpRecord) × (result ≡ some d')
    × (d'.engine ≡ d.engine)
    × (d'.remote_op_buffer ≡ d.remote_op_buffer ++ more)
    × Numbered d.engine.current_seq 0 d'.remote_op_buffer

-- Operations of the server that all have a global number, in whatever order they come, repeated or
-- with gaps, leave the document and its engine, and add to the end of the buffer only: where the
-- buffer held the operations that follow the engine's number, in order and without a gap, it does
-- so afterwards.
pub buffer_ops-Numbered :
    (doc_id : ℕ) (ops : List OpRecord) (d : RemoteDoc)
    → All (λ op. (n : ℕ) × (op.seq ≡ some n)) ops
    → Numbered d.engine.current_seq 0 d.remote_op_buffer
    → Buffered d (buffer_ops doc_id ops d).1
unfolding buffer_ops
buffer_ops-Numbered doc_id [] d numbered ok =
    (d, [], refl, refl, sym (append-nil d.remote_op_buffer), ok)
buffer_ops-Numbered doc_id (op ∷ ops) d ((gseq, is), numbered) ok =
    elim (Bool-cases (ltb gseq (expected_gseq d))) [
      | inl outdated ↦
          rw (is, buffer_ops) (rw outdated (buffer_ops-Numbered doc_id ops d numbered ok))
      | inr fresh ↦ elim (Bool-cases (ltb (expected_gseq d) gseq)) [
        | inl ahead ↦
            rw (is, buffer_ops) (rw fresh (rw ahead (buffer_ops-Numbered doc_id ops d numbered ok)))
        | inr next ↦
            let d' : RemoteDoc = record d { remote_op_buffer = d.remote_op_buffer ++ op ∷ [] } in
            let exact : gseq ≡ expected_gseq d = ground arith in
            let ok' : Numbered d.engine.current_seq 0 d'.remote_op_buffer =
              Numbered-append d.engine.current_seq 0 d.remote_op_buffer op
                (is
                  ∙ ap (λ k. some k) exact
                  ∙ (unfold expected_gseq in
                      ap (λ k. some (add_u32 (add_u32 d.engine.current_seq (as_u32 k)) 1))
                        (omega arith)))
                ok in
            let (last, more, e, engine, buffer, done) =
              buffer_ops-Numbered doc_id ops d' numbered ok' in
            rw (is, buffer_ops)
              (rw fresh (
                rw next (
                  last,
                  op ∷ more,
                  e,
                  engine,
                  buffer ∙ append_assoc d.remote_op_buffer (op ∷ []) more,
                  done,
                )))
      ]
    ]
