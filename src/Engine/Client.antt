-- ===== src/Engine/Client.antt =====
-- `ClientEngine`: the state of one site, and what it sends to the server.
pub mod Undo
pub mod Local
pub mod Remote
use collab_mode.Prelude.{
  ℕ, ◌+◌, ◌==◌, Bool, true, false, Option, none, some, List, [], ◌∷◌, length, add_u64,
  if◌then◌else◌, ◌>>=◌,
}
use collab_mode.Op.{Op, site}
use collab_mode.Types.{EditorLeanOp, EditInstruction}
use collab_mode.InternalDoc.{InternalDoc, editor_len}
use collab_mode.InternalDoc.Edits.{convert_internal_op_and_apply}
use collab_mode.Engine.{OpRecord, add_u32}
use collab_mode.Engine.History.{GlobalHistory, new_history}

pub record ContextOps : Type 0 where
  pub doc : ℕ
  pub context : ℕ
  pub ops : List OpRecord

pub record ClientEngine : Type 0 where
  pub gh : GlobalHistory
  pub internal_doc : InternalDoc
  pub site_id : ℕ
  pub current_seq : ℕ
  pub current_site_seq : ℕ
  pub last_site_seq_sent_out : ℕ

-- `ClientEngine::new`
unfoldable pub new_client : ℕ → ℕ → InternalDoc → ClientEngine
unfolding new_history
new_client site base_seq internal_doc = record {
  gh = new_history;
  internal_doc = internal_doc;
  site_id = site;
  current_seq = base_seq;
  current_site_seq = 0;
  last_site_seq_sent_out = 0;
}

unfoldable pub client_editor_len : ClientEngine → ℕ
unfolding editor_len
client_editor_len e = editor_len e.internal_doc

abbrev first_is : ℕ → List OpRecord → Bool
first_is n [] = false
first_is n (o ∷ os) = o.site_seq == n

unfoldable pub prev_op_acked : ClientEngine → Bool
prev_op_acked e = first_is (add_u32 e.last_site_seq_sent_out 1) e.gh.local

unfoldable pub package_local_ops : ClientEngine → ℕ → Option ContextOps
package_local_ops e doc = elim e.gh.local [
  | [] ↦ none
  | o ∷ os ↦ some (record { doc = doc; context = e.current_seq; ops = o ∷ os })
]

unfoldable pub pending_local_ops : ClientEngine → ℕ
pending_local_ops e = length e.gh.local

abbrev pub last_site_seq : ℕ → List OpRecord → ℕ
last_site_seq n [] = n
last_site_seq n (o ∷ os) = last_site_seq o.site_seq os

unfoldable pub maybe_package_local_ops : ClientEngine → ℕ → Option ContextOps × ClientEngine
unfolding prev_op_acked package_local_ops
maybe_package_local_ops e doc =
    if prev_op_acked e
    then (elim (package_local_ops e doc) [
      | none ↦ (none, e)
      | some context_ops ↦ (
        some context_ops,
        record e {
          last_site_seq_sent_out = last_site_seq e.last_site_seq_sent_out context_ops.ops;
        },
      )
    ])
    else (none, e)

-- `ClientEngine::convert_internal_op_and_apply`
unfoldable pub client_convert_and_apply : ClientEngine → Op → Option (EditorLeanOp × ClientEngine)
unfolding convert_internal_op_and_apply site
client_convert_and_apply e op = convert_internal_op_and_apply e.internal_doc op >>= λ r.
    some (record { op = r.0; site_id = site op }, record e { internal_doc = r.1 })

-- The loop of `convert_internal_ops_dont_apply` over the operations, on a copy of the document.
unfoldable pub convert_ops : InternalDoc → List OpRecord → Option (List EditInstruction)
unfolding convert_internal_op_and_apply
convert_ops d [] = some []
convert_ops d (o ∷ os) =
    let further = λ (d : InternalDoc). convert_ops d os in
    convert_internal_op_and_apply d o.op >>= λ r. further r.1 >>= λ rest. some (r.0 ∷ rest)

unfoldable pub convert_internal_ops_dont_apply :
    ClientEngine → List OpRecord → Option (List EditInstruction)
unfolding convert_ops
convert_internal_ops_dont_apply e ops = convert_ops e.internal_doc ops
