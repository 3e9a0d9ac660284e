-- ===== src/Map/Laws.antt =====
-- The laws of the map's operations, with both outcomes of the test of the keys.
use mathlib.Core.Option
use collab_mode.Prelude.{
  All, Bool-cases, ◌⊎◌, inl, inr, ◌≡◌, ◌∙◌, sym, ap, refl, true, false, none, some, List, [], ◌∷◌,
  arith, if◌then◌else◌,
}
use collab_mode.Map.{Eq, lookup, insert, remove, update, contains_key}

pub beq_self {ℓ} : {K : Type ℓ} ⦃e : Eq K⦄ (k : K) → e.beq k k ≡ true
beq_self ⦃e⦄ k = (e.beq_iff k k).1 refl

module _ {ℓ κ} {K : Type ℓ} {V : Type κ} ⦃e : Eq K⦄ where
  pub lookup-insert :
      (k j : K) (v : V) (m : List (K × V))
      → lookup j (insert k v m) ≡ (if e.beq k j then some v else lookup j m)
  unfolding lookup insert
  lookup-insert k j v [] = refl
  lookup-insert k j v ((i, w) ∷ m) =
      ground (arith, e.beq_iff k j, e.beq_iff i k, e.beq_iff i j, lookup-insert k j v m)

  pub lookup-remove :
      (k j : K) (m : List (K × V))
      → lookup j (remove k m) ≡ (if e.beq k j then none else lookup j m)
  unfolding lookup remove
  lookup-remove k j [] = ground arith
  lookup-remove k j ((i, w) ∷ m) =
      ground (arith, e.beq_iff k j, e.beq_iff i k, e.beq_iff i j, lookup-remove k j m)

  pub lookup-update :
      (k j : K) (f : V → V) (m : List (K × V))
      → lookup j (update k f m) ≡ (if e.beq k j then Option.map f (lookup j m) else lookup j m)
  unfolding lookup update
  lookup-update k j f [] = ground arith
  lookup-update k j f ((i, w) ∷ m) =
      ground (arith, e.beq_iff k j, e.beq_iff i k, e.beq_iff i j, lookup-update k j f m)

  pub lookup-insert_self : (k : K) (v : V) (m : List (K × V)) → lookup k (insert k v m) ≡ some v
  lookup-insert_self k v m = lookup-insert k k v m ∙ rw (beq_self k) refl

  pub lookup-insert_other :
      (k j : K) (v : V) (m : List (K × V))
      → e.beq k j ≡ false
      → lookup j (insert k v m) ≡ lookup j m
  lookup-insert_other k j v m other = lookup-insert k j v m ∙ rw other refl

  pub lookup-remove_other :
      (k j : K) (m : List (K × V)) → e.beq k j ≡ false → lookup j (remove k m) ≡ lookup j m
  lookup-remove_other k j m other = lookup-remove k j m ∙ rw other refl

  -- What an entry was before the insertion.
  pub insert_cases :
      (k j : K) (v w : V) (m : List (K × V))
      → lookup j (insert k v m) ≡ some w
      → ((k ≡ j) × (v ≡ w)) ⊎ ((e.beq k j ≡ false) × (lookup j m ≡ some w))
  insert_cases k j v w m found = elim (Bool-cases (e.beq k j)) [
    | inl same ↦
        let at : some v ≡ some w = sym (lookup-insert k j v m ∙ rw same refl) ∙ found in
        inl ((e.beq_iff k j).0 same, (cc))
    | inr other ↦ inr (other, sym (lookup-insert_other k j v m other) ∙ found)
  ]

  pub remove_cases :
      (k j : K) (w : V) (m : List (K × V))
      → lookup j (remove k m) ≡ some w
      → (e.beq k j ≡ false) × (lookup j m ≡ some w)
  remove_cases k j w m found = elim (Bool-cases (e.beq k j)) [
    | inl same ↦
        let at : none ≡ some w = sym (lookup-remove k j m ∙ rw same refl) ∙ found in absurd (cc)
    | inr other ↦ (other, sym (lookup-remove_other k j m other) ∙ found)
  ]

  -- Keys with different values are different.
  pub beq-differ :
      (k j : K) (m : List (K × V)) (w : V)
      → lookup k m ≡ none
      → lookup j m ≡ some w
      → e.beq k j ≡ false
  beq-differ k j m w absent found = elim (Bool-cases (e.beq k j)) [
    | inl same ↦
        let is : k ≡ j = (e.beq_iff k j).0 same in
        let at : none ≡ some w = sym absent ∙ ap (λ x. lookup x m) is ∙ found in absurd (cc)
    | inr other ↦ other
  ]

  pub contains_key-lookup :
      (k : K) (m : List (K × V))
      → contains_key k m ≡ elim (lookup k m) [ none ↦ false | some _ ↦ true ]
  unfolding lookup contains_key
  contains_key-lookup k [] = refl
  contains_key-lookup k ((i, w) ∷ m) = ground (arith, contains_key-lookup k m)

-- Every value.
abbrev pub Values {ℓ κ ρ} : {K : Type ℓ} {V : Type κ} → (V → Type ρ) → List (K × V) → Type ρ
Values P m = All (λ e. P e.1) m

module _ {ℓ κ ρ} {K : Type ℓ} {V : Type κ} ⦃e : Eq K⦄ (P : V → Type ρ) where
  pub insert-Values :
      (k : K) (v : V) (m : List (K × V)) → P v → Values P m → Values P (insert k v m)
  unfolding insert
  insert-Values k v [] p all = (p, tt)
  insert-Values k v ((j, w) ∷ m) p (q, all) = elim (Bool-cases (e.beq j k)) [
    | inl same ↦ rw same (p, all)
    | inr other ↦ rw other (q, insert-Values k v m p all)
  ]

  pub remove-Values : (k : K) (m : List (K × V)) → Values P m → Values P (remove k m)
  unfolding remove
  remove-Values k [] all = tt
  remove-Values k ((j, w) ∷ m) (q, all) = elim (Bool-cases (e.beq j k)) [
    | inl same ↦ rw same (remove-Values k m all)
    | inr other ↦ rw other (q, remove-Values k m all)
  ]

  -- The written value is the one that `lookup` finds.
  pub update-Values_at :
      (k : K) (f : V → V) (m : List (K × V))
      → ((v : V) → lookup k m ≡ some v → P v → P (f v))
      → Values P m
      → Values P (update k f m)
  unfolding update lookup
  update-Values_at k f [] keep all = tt
  update-Values_at k f ((j, w) ∷ m) keep (q, all) = elim (Bool-cases (e.beq j k)) [
    | inl same ↦ rw same (keep w (rw same) q, all)
    | inr other ↦ rw other (q, update-Values_at k f m (λ v found p. keep v (rw other found) p) all)
  ]

  pub update-Values :
      (k : K) (f : V → V) (m : List (K × V))
      → ((v : V) → P v → P (f v))
      → Values P m
      → Values P (update k f m)
  update-Values k f m keep = update-Values_at k f m (λ v found. keep v)

  pub lookup-Values : (k : K) (m : List (K × V)) (v : V) → lookup k m ≡ some v → Values P m → P v
  unfolding lookup
  lookup-Values k [] v found all = absurd (cc)
  lookup-Values k ((j, w) ∷ m) v found (q, all) = elim (Bool-cases (e.beq j k)) [
    | inl same ↦
        let found' : some w ≡ some v = rw same at found in let is_v : w ≡ v = cc in rw⁻¹ is_v q
    | inr other ↦ lookup-Values k m v (rw other at found) all
  ]
