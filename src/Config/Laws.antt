-- ===== src/Config/Laws.antt =====
-- What a host may do, and whom that means.
use mathlib.Core.List.{◌++◌}
use collab_mode.Prelude.{
  ℕ, ◌≡◌, ◌≢◌, inl, inr, refl, true, false, Bool-cases, some, [], ◌∷◌, Text, if◌then◌else◌,
}
use collab_mode.Map.{text_eq, text_beq, text_beq_iff, lookup}
use collab_mode.Map.Laws.{lookup-insert}
use collab_mode.Types.Ids.{make_id}
use collab_mode.Config.{
  Permission, Config, is_own, permission_of, write_allowed, create_allowed, delete_allowed,
  add_permission,
}

-- What a host may do, all in one.
abbrev pub allowed : Config → Text → Permission
allowed config host = record {
  write = write_allowed config host;
  create = create_allowed config host;
  delete = delete_allowed config host;
}

-- A permission that is added is the one that the three checks find, for the host that it is added
-- for, and the checks of every other host answer as before; the name in the configuration may do
-- everything, whatever permission is added for it.
pub add_permission-allowed :
    (config : Config) (host other : Text) (p : Permission)
    → let config' = add_permission host p config in
      (allowed config' other ≡ (
        if is_own other config.host_id
        then record { write = true; create = true; delete = true }
        else if text_beq host other
        then p
        else allowed config other))
unfolding add_permission write_allowed create_allowed delete_allowed
add_permission-allowed config host other p = elim (Bool-cases (is_own other config.host_id)) [
  | inl own ↦ rw own refl
  | inr foreign ↦ elim (Bool-cases (text_beq host other)) [
    | inl same ↦ rw foreign (rw lookup-insert (rw same refl))
    | inr differ ↦ rw foreign (rw lookup-insert (rw differ refl))
  ]
]

longer : (name rest : Text) (c : ℕ) → name ++ c ∷ rest ≢ name
longer [] rest c e = cc
longer (d ∷ name) rest c e = longer name rest c (cc)

-- `main` stores the name alone in the configuration and passes `make_id` of it to the server. The
-- checks take that identity for another host, so its permissions are those of the map and, without
-- an entry there, the defaults, by which it may not delete.
pub make_id-not_own :
    (config : Config) (d : ℕ) (name cert_hash : Text)
    → config.host_id ≡ some (d ∷ name)
    → allowed config (make_id (some (d ∷ name)) cert_hash)
      ≡ permission_of (lookup (make_id (some (d ∷ name)) cert_hash) config.permission)
unfolding make_id write_allowed create_allowed delete_allowed is_own
make_id-not_own config d name cert_hash own =
    let id = make_id (some (d ∷ name)) cert_hash in
    let foreign : is_own id config.host_id ≡ false =
      rw own (elim (Bool-cases (text_beq id (d ∷ name))) [
        | inl same ↦ absurd (longer (d ∷ name) _ 58 ((text_beq_iff id (d ∷ name)).0 same))
        | inr differ ↦ differ
      ]) in
    rw foreign refl
