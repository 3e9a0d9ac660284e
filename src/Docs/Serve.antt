-- ===== src/Docs/Serve.antt =====
-- What the host of a document does with the operations and requests of the other hosts
-- (collab_mode/src/server.rs). `none` is a panic; an error is returned beside the state it leaves.
pub mod Resume
use collab_mode.Prelude.{
  ℕ, ◌==◌, add_u64, ◌&&◌, ltb, leb, Bool, true, false, not, Option, none, some, List, [], ◌∷◌, ◌++◌,
  ◌>>=◌, map, reverse, Text, length, take, drop, if◌then◌else◌,
}
use collab_mode.Map.{nat_eq, text_eq, lookup, insert, update}
use collab_mode.Types.Files.{FileDesc}
use collab_mode.Docs.Remote.{apply_instruction}
use collab_mode.Config.{Config, write_allowed}
use collab_mode.Engine.{OpRecord, add_u32}
use collab_mode.Engine.Server.{
  ServerEngine, server_convert_and_apply, server_editor_len, process_ops, global_ops_after,
}
use collab_mode.Engine.Client.{ContextOps}

-- Where a document is kept: the name of a buffer, or a path.
pub data PathId : Type 0 where
  buffer_id : Text → PathId
  path_id : Text → PathId

-- `Doc`; the gap buffer is the text it holds, and an open file the path by which it was opened.
pub record Doc : Type 0 where
  pub name : Text
  pub abs_filename : PathId
  pub canon_filename : Option Text
  pub file_desc : FileDesc
  -- The open file, by the path at which it was opened.
  pub disk_file : Option Text
  pub engine : ServerEngine
  pub buffer : Text
  pub subscribers : List (Text × ℕ)
  pub last_saved_at : ℕ
  pub next_external_site_seq : ℕ

pub data DocMsg : Type 0 where
  permission_denied : DocMsg
  bad_request : ℕ → DocMsg
  not_open : ℕ → DocMsg
  doc_fatal : ℕ → ℕ → ℕ → DocMsg
  op_from_server : ℕ → List OpRecord → DocMsg

pub record Hosted : Type 0 where
  pub config : Config
  pub docs : List (ℕ × Doc)

-- `Doc::apply_op`. The error of the last test leaves the changed document.
unfoldable pub apply_op : OpRecord → Doc → Option (Bool × Doc)
unfolding server_convert_and_apply apply_instruction server_editor_len
apply_op op doc = server_convert_and_apply doc.engine op >>= λ r.
    apply_instruction r.0 doc.buffer >>= λ b.
    let doc' : Doc = record doc { engine = r.1; buffer = b.1 } in
    some (if b.0 then (server_editor_len r.1 == length b.1) else false, doc')

-- The loop over the processed operations, which an error leaves.
unfoldable pub apply_each : List OpRecord → Doc → Option (Bool × Doc)
unfolding apply_op
apply_each [] doc = some (true, doc)
apply_each (op ∷ ops) doc = apply_op op doc >>= λ r.
    let rest = apply_each ops r.1 in if r.0 then rest else some (false, r.1)

abbrev pub set_doc : ℕ → Doc → Hosted → Hosted
set_doc id doc hosted = record hosted { docs = insert id doc hosted.docs }

-- `first()` and `last()` of the operations, their numbers at the site.
abbrev pub first_site_seq : List OpRecord → Option ℕ
first_site_seq [] = none
first_site_seq (op ∷ _) = some op.site_seq

abbrev pub last_seq : List OpRecord → Option ℕ
last_seq [] = none
last_seq (op ∷ ops) = elim (last_seq ops) [ none ↦ some op.site_seq | some n ↦ some n ]

-- Whether the first operation has the expected number; there may be none.
unfoldable pub seq_matches : ℕ → List OpRecord → Bool
seq_matches expected ops = elim (first_site_seq ops) [ none ↦ true | some n ↦ n == expected ]

abbrev pub record_seq : Text → List OpRecord → List (Text × ℕ) → List (Text × ℕ)
record_seq host ops subscribers = elim (last_seq ops) [
  | none ↦ subscribers
  | some n ↦ insert host n subscribers
]

-- What follows the checks.
unfoldable pub accept_ops :
    ContextOps → Text → Doc → Hosted → Option (Bool × List (Text × DocMsg) × Hosted)
unfolding process_ops apply_each
accept_ops context_ops host doc hosted =
    let (processed, engine) = process_ops doc.engine context_ops.ops context_ops.context in
    let received : Doc = record doc {
      engine = engine;
      subscribers = record_seq host context_ops.ops doc.subscribers;
    } in
    apply_each processed received >>= λ r. some (
      r.0,
      if r.0
          then map (λ s. (s.0, op_from_server context_ops.doc processed)) r.1.subscribers
          else [],
      set_doc context_ops.doc r.1 hosted,
    )

abbrev pub reply : Text → DocMsg → Hosted → Option (Bool × List (Text × DocMsg) × Hosted)
reply host msg hosted = some (true, (host, msg) ∷ [], hosted)

abbrev pub first_or_zero : Option ℕ → ℕ
first_or_zero none = 0
first_or_zero (some n) = n

unfoldable pub handle_op_from_client :
    ContextOps → Text → Hosted → Option (Bool × List (Text × DocMsg) × Hosted)
unfolding write_allowed seq_matches accept_ops
handle_op_from_client context_ops host hosted =
    if write_allowed hosted.config host
    then (elim (lookup context_ops.doc hosted.docs) [
      | none ↦ reply host (bad_request context_ops.doc) hosted
      | some doc ↦ elim (lookup host doc.subscribers) [
        | none ↦ reply host (not_open context_ops.doc) hosted
        | some seq ↦
            (if seq_matches (add_u32 seq 1) context_ops.ops
              then accept_ops context_ops host doc hosted
              else reply host
                  (doc_fatal context_ops.doc (add_u32 seq 1)
                    (first_or_zero (first_site_seq context_ops.ops)))
                  hosted)
      ]
    ])
    else reply host permission_denied hosted

abbrev pub is_empty {ℓ} : {A : Type ℓ} → List A → Bool
is_empty [] = true
is_empty (_ ∷ _) = false

unfoldable pub handle_request_ops : ℕ → ℕ → Text → Hosted → List (Text × DocMsg) × Hosted
unfolding global_ops_after
handle_request_ops doc_id after host hosted = elim (lookup doc_id hosted.docs) [
  | none ↦ ((host, bad_request doc_id) ∷ [], hosted)
  | some doc ↦
      (let hosted' =
          set_doc doc_id (record doc { subscribers = insert host 0 doc.subscribers }) hosted in
        let ops = global_ops_after doc.engine after in
        (if is_empty ops then [] else (host, op_from_server doc_id ops) ∷ [], hosted'))
]
