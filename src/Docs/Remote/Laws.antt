-- ===== src/Docs/Remote/Laws.antt =====
-- The agreement of the two tables of the remote documents, over the operations on them.
use collab_mode.Prelude.{
  ℕ, ◌≡◌, refl, ap, sym, ◌∙◌, Bool, true, false, inl, inr, Bool-cases, Option-cases, none, some,
  Text,
}
use collab_mode.Map.{nat_eq, text_eq, pair_eq, lookup, insert, remove}
use collab_mode.Map.Laws.{
  insert_cases, remove_cases, lookup-insert_self, lookup-insert_other, lookup-remove_other,
  beq-differ,
}
use collab_mode.Types.Files.{
  FileDesc, project, project_file, EditorFileDesc, editor_desc_eq, new_editor_desc,
}
use collab_mode.Docs.Remote.{
  RemoteDoc, RemoteDocs, no_remote_docs, insert_remote_doc, remove_remote_doc,
  remove_by_editor_desc, write_remote_doc,
}

-- Every document is found by its descriptor, and every descriptor finds a document that has it.
pub record Agrees (r : RemoteDocs) : Type 0 where
  pub indexed :
      (host : Text) (id : ℕ) (d : RemoteDoc)
      → lookup (host, id) r.docs ≡ some d
      → lookup (new_editor_desc d.file_desc host) r.editor_map ≡ some id
  pub found :
      (desc : EditorFileDesc) (id : ℕ)
      → lookup desc r.editor_map ≡ some id
      → (d : RemoteDoc) × (lookup (desc.host_id, id) r.docs ≡ some d)
        × (new_editor_desc d.file_desc desc.host_id ≡ desc)

false-ne-true : (b : Bool) → b ≡ false → b ≡ true → ⊥
false-ne-true b e f = let both : false ≡ true = sym e ∙ f in cc

pub host_id-new_editor_desc : (f : FileDesc) (host : Text) → (new_editor_desc f host).host_id ≡ host
unfolding new_editor_desc
host_id-new_editor_desc (project _) host = refl
host_id-new_editor_desc (project_file _ _) host = refl

pub empty-Agrees : Agrees no_remote_docs
unfolding lookup
empty-Agrees = record { indexed = λ host id d e. absurd (cc); found = λ desc id e. absurd (cc) }

-- A document that is added under an id and a name that are not in use.
pub insert_remote_doc-Agrees :
    (host : Text) (id : ℕ) (d : RemoteDoc) (r : RemoteDocs)
    → Agrees r
    → lookup (host, id) r.docs ≡ none
    → lookup (new_editor_desc d.file_desc host) r.editor_map ≡ none
    → Agrees (insert_remote_doc host id d (new_editor_desc d.file_desc host) r)
unfolding insert_remote_doc
insert_remote_doc-Agrees host id d r ok free unnamed = record {
  indexed = λ h i d' e. elim (insert_cases (host, id) (h, i) d d' r.docs e) [
    | inl (is, same_doc) ↦
        let same_host : host ≡ h = ap (λ (k : Text × ℕ). k.0) is in
        let same_id : id ≡ i = ap (λ (k : Text × ℕ). k.1) is in
        rw⁻¹ same_doc (
          rw⁻¹ same_host
            (rw⁻¹ same_id (lookup-insert_self (new_editor_desc d.file_desc host) id r.editor_map)))
    | inr (other, old) ↦
        let named = ok.indexed h i d' old in
        lookup-insert_other (new_editor_desc d.file_desc host) (new_editor_desc d'.file_desc h) id
          r.editor_map
          (beq-differ (new_editor_desc d.file_desc host) (new_editor_desc d'.file_desc h)
            r.editor_map i unnamed named)
        ∙ named
  ];
  found = λ desc i e.
      elim (insert_cases (new_editor_desc d.file_desc host) desc id i r.editor_map e) [
        | inl (is, same_id) ↦
            let at : desc.host_id ≡ host =
              ap (λ (k : EditorFileDesc). k.host_id) (sym is)
              ∙ host_id-new_editor_desc d.file_desc host in
            (
              d,
              rw at (rw⁻¹ same_id (lookup-insert_self (host, id) d r.docs)),
              ap (new_editor_desc d.file_desc) at ∙ is,
            )
        | inr (other, old) ↦
            let (d', there, named) = ok.found desc i old in
            (
              d',
              lookup-insert_other (host, id) (desc.host_id, i) d r.docs
                    (beq-differ (host, id) (desc.host_id, i) r.docs d' free there)
                  ∙ there,
              named,
            )
      ];
}

-- A document that was written, with its descriptor.
pub write_remote_doc-Agrees :
    (host : Text) (id : ℕ) (d old : RemoteDoc) (r : RemoteDocs)
    → Agrees r
    → lookup (host, id) r.docs ≡ some old
    → d.file_desc ≡ old.file_desc
    → Agrees (write_remote_doc host id d r)
unfolding write_remote_doc
write_remote_doc-Agrees host id d old r ok there same = record {
  indexed = λ h i d' e. elim (insert_cases (host, id) (h, i) d d' r.docs e) [
    | inl (is, same_doc) ↦
        let same_host : host ≡ h = ap (λ (k : Text × ℕ). k.0) is in
        let same_id : id ≡ i = ap (λ (k : Text × ℕ). k.1) is in
        rw⁻¹ same_doc (
          rw⁻¹ same_host (
            rw⁻¹ same_id (
              ap (λ f. lookup (new_editor_desc f host) r.editor_map) same
              ∙ ok.indexed host id old there)))
    | inr (other, before) ↦ ok.indexed h i d' before
  ];
  found = λ desc i e.
      let (d', at, named) = ok.found desc i e in
      elim (Bool-cases (pair_eq.beq (host, id) (desc.host_id, i))) [
        | inl is_same ↦
            let is : (host, id) ≡ (desc.host_id, i) =
              (pair_eq.beq_iff (host, id) (desc.host_id, i)).0 is_same in
            let both : some old ≡ some d' = sym there ∙ ap (λ k. lookup k r.docs) is ∙ at in
            let same_doc : old ≡ d' = cc in
            (
              d,
              ap (λ k. lookup k (insert (host, id) d r.docs)) (sym is)
                  ∙ lookup-insert_self (host, id) d r.docs,
              ap (λ f. new_editor_desc f desc.host_id)
                    (same ∙ ap (λ (x : RemoteDoc). x.file_desc) same_doc)
                  ∙ named,
            )
        | inr other ↦
            (d', lookup-insert_other (host, id) (desc.host_id, i) d r.docs other ∙ at, named)
      ];
}

module _ (host : Text) (id : ℕ) (d : RemoteDoc) (r : RemoteDocs) (ok : Agrees r)
    (there : lookup (host, id) r.docs ≡ some d) where
  removed_indexed :
      (h : Text) (i : ℕ) (d' : RemoteDoc)
      → lookup (h, i) (remove (host, id) r.docs) ≡ some d'
      → lookup
          (new_editor_desc d'.file_desc h)
          (remove (new_editor_desc d.file_desc host) r.editor_map)
        ≡ some i
  removed_indexed h i d' e =
      let (other, old) = remove_cases (host, id) (h, i) d' r.docs e in
      let named = ok.indexed h i d' old in
      let gone = new_editor_desc d.file_desc host in
      let name = new_editor_desc d'.file_desc h in
      elim (Bool-cases (editor_desc_eq.beq gone name)) [
        | inl same ↦
            let is : gone ≡ name = (editor_desc_eq.beq_iff gone name).0 same in
            let ids : some id ≡ some i =
              sym (ok.indexed host id d there) ∙ ap (λ k. lookup k r.editor_map) is ∙ named in
            let same_id : id ≡ i = cc in
            let same_host : host ≡ h =
              sym (host_id-new_editor_desc d.file_desc host)
              ∙ ap (λ (k : EditorFileDesc). k.host_id) is
              ∙ host_id-new_editor_desc d'.file_desc h in
            let keys : (host, id) ≡ (h, i) = λ t. (same_host t, same_id t) in
            let clash = (pair_eq.beq_iff (host, id) (h, i)).1 keys in
            absurd (false-ne-true _ other clash)
        | inr differ ↦ lookup-remove_other gone name r.editor_map differ ∙ named
      ]

  removed_found :
      (desc : EditorFileDesc) (i : ℕ)
      → lookup desc (remove (new_editor_desc d.file_desc host) r.editor_map) ≡ some i
      → (d' : RemoteDoc) × (lookup (desc.host_id, i) (remove (host, id) r.docs) ≡ some d')
        × (new_editor_desc d'.file_desc desc.host_id ≡ desc)
  removed_found desc i e =
      let gone = new_editor_desc d.file_desc host in
      let (other, old) = remove_cases gone desc i r.editor_map e in
      let (d', at, named) = ok.found desc i old in
      elim (Bool-cases (pair_eq.beq (host, id) (desc.host_id, i))) [
        | inl same ↦
            let is : (host, id) ≡ (desc.host_id, i) =
              (pair_eq.beq_iff (host, id) (desc.host_id, i)).0 same in
            let both : some d ≡ some d' = sym there ∙ ap (λ k. lookup k r.docs) is ∙ at in
            let same_doc : d ≡ d' = cc in
            let same_host : host ≡ desc.host_id = ap (λ (k : Text × ℕ). k.0) is in
            let names : gone ≡ desc =
              (λ t. new_editor_desc (same_doc t).file_desc (same_host t)) ∙ named in
            let clash = (editor_desc_eq.beq_iff gone desc).1 names in
            absurd (false-ne-true _ other clash)
        | inr differ ↦
            (d', lookup-remove_other (host, id) (desc.host_id, i) r.docs differ ∙ at, named)
      ]

-- A document that is removed by its id.
pub remove_remote_doc-Agrees :
    (host : Text) (id : ℕ) (r : RemoteDocs) → Agrees r → Agrees (remove_remote_doc host id r)
unfolding remove_remote_doc
remove_remote_doc-Agrees host id r ok = elim (Option-cases (lookup (host, id) r.docs)) [
  | inl e ↦ rw (e, remove_remote_doc) ok
  | inr (d, e) ↦
      rw (e, remove_remote_doc)
        (record {
          indexed = removed_indexed host id d r ok e;
          found = removed_found host id d r ok e;
        })
]

-- Removing by descriptor is removing the document that the descriptor finds.
remove_by-eq-remove :
    (desc : EditorFileDesc) (id : ℕ) (r : RemoteDocs)
    → Agrees r
    → lookup desc r.editor_map ≡ some id
    → remove_by_editor_desc desc r ≡ remove_remote_doc desc.host_id id r
unfolding remove_by_editor_desc remove_remote_doc
remove_by-eq-remove desc id r ok e =
    let (d, there, named) = ok.found desc id e in
    rw (e, remove_by_editor_desc) (rw (there, remove_remote_doc) (rw named refl))

pub remove_by_editor_desc-Agrees :
    (desc : EditorFileDesc) (r : RemoteDocs) → Agrees r → Agrees (remove_by_editor_desc desc r)
unfolding remove_by_editor_desc
remove_by_editor_desc-Agrees desc r ok = elim (Option-cases (lookup desc r.editor_map)) [
  | inl e ↦ rw (e, remove_by_editor_desc) ok
  | inr (id, e) ↦
      rw (remove_by-eq-remove desc id r ok e) (remove_remote_doc-Agrees desc.host_id id r ok)
]
