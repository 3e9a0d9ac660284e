-- ===== src/Types/Ids/Laws.antt =====
-- An identity gives back its parts, and an address is normalised once and for all.
use mathlib.Core.List.{◌++◌}
use collab_mode.Prelude.{
  ℕ, suc, ◌+◌, ◌==◌, ◌≡◌, inl, inr, refl, ap, ◌∙◌, true, false, Bool-cases, Option-cases, none,
  some, [], ◌∷◌, All, ltb, arith, Text, codes, ◌⊎◌, take-append, length, take, drop, if◌then◌else◌,
}
use collab_mode.Config.{is_name_char, all_letters, sanitize_name, name_ok}
use collab_mode.Types.Ids.{
  past_one, find, separator, id_hash, id_name, make_id, normalize_signaling_addr,
}

-- The name of a server has no colon.
find-separator :
    (name hash : Text)
    → All (λ c. (58 == c) ≡ false) name
    → find separator (name ++ (separator ++ hash)) ≡ some (length name)
unfolding find
find-separator [] hash plain = refl
find-separator (c ∷ name) hash (other, plain) =
    rw other (ap past_one (find-separator name hash plain))

wss_found : (addr : Text) → find (codes "://") (codes "wss://" ++ addr) ≡ some 3
unfolding find
wss_found addr = refl

id_name-found : (id : Text) (i : ℕ) → find separator id ≡ some i → id_name id ≡ some (take i id)
unfolding id_name
id_name-found id i e = rw (e, id_name) refl

id_hash-found : (id : Text) (i : ℕ) → find separator id ≡ some i → id_hash id ≡ drop (i + 2) id
unfolding id_hash
id_hash-found id i e = rw (e, id_hash) refl

drop-separator : (name hash : Text) → drop (length name + 2) (name ++ (separator ++ hash)) ≡ hash
drop-separator [] hash = refl
drop-separator (c ∷ name) hash =
    ap (λ n. drop n ((c ∷ name) ++ (separator ++ hash))) one_more ∙ drop-separator name hash
  where
    one_more : length (c ∷ name) + 2 ≡ suc (length name + 2)
    one_more = omega arith

not_colon : (c : ℕ) → is_name_char c ≡ true → (58 == c) ≡ false
unfolding is_name_char
not_colon c h = ground arith

plain_letters : (name : Text) → all_letters name ≡ true → All (λ x. (58 == x) ≡ false) name
unfolding all_letters is_name_char
plain_letters [] h = tt
plain_letters (c ∷ name) h = (not_colon c (ground arith), plain_letters name (ground arith))

sanitized : (name : Text) → sanitize_name name ≡ name_ok → all_letters name ≡ true
unfolding sanitize_name
sanitized [] h = absurd (cc)
sanitized (c ∷ name) h = elim (Bool-cases (all_letters (c ∷ name))) [
  | inl letters ↦ letters
  | inr other ↦ absurd (let h' = rw other at h in cc)
]

-- The name and the hash of the identity made of an accepted name and a hash are these two, and of
-- the identity made of a hash without separator alone: no name, and the hash.
pub id_parts-make_id :
    (name hash : Text)
    → sanitize_name name ≡ name_ok
    → find separator hash ≡ none
    → (id_name (make_id (some name) hash) ≡ some name)
      × (id_hash (make_id (some name) hash) ≡ hash)
      × (id_name (make_id none hash) ≡ none)
      × (id_hash (make_id none hash) ≡ hash)
unfolding make_id sanitize_name
id_parts-make_id [] hash accepted bare = absurd (cc)
id_parts-make_id (c ∷ name) hash accepted bare =
    let letters : all_letters (c ∷ name) ≡ true = sanitized (c ∷ name) accepted in
    let there = find-separator (c ∷ name) hash (plain_letters (c ∷ name) letters) in
    let id = (c ∷ name) ++ (separator ++ hash) in
    (
      id_name-found id _ there ∙ ap (λ n. some n) (take-append (c ∷ name) (separator ++ hash)),
      id_hash-found id _ there ∙ drop-separator (c ∷ name) hash,
      (unfold id_name in rw (bare, id_name) refl),
      (unfold id_hash in rw (bare, id_hash) refl),
    )

normalize_found :
    (addr : Text) (i : ℕ)
    → find (codes "://") addr ≡ some i
    → normalize_signaling_addr addr ≡ (if ltb 0 i then addr else codes "wss://" ++ addr)
unfolding normalize_signaling_addr
normalize_found addr i e = rw (e, normalize_signaling_addr) refl

wss_stays :
    (addr : Text) → normalize_signaling_addr (codes "wss://" ++ addr) ≡ codes "wss://" ++ addr
wss_stays addr = normalize_found (codes "wss://" ++ addr) 3 (wss_found addr)

-- A normalised address has a scheme before its first "://", is the given address or that address
-- with "wss://" before it, and stays as it is when it is normalised again.
pub normalize_signaling_addr-twice :
    (addr : Text)
    → ((normalize_signaling_addr addr ≡ addr)
        ⊎ (normalize_signaling_addr addr ≡ codes "wss://" ++ addr))
      × (normalize_signaling_addr (normalize_signaling_addr addr) ≡ normalize_signaling_addr addr)
normalize_signaling_addr-twice addr = elim (Option-cases (find (codes "://") addr)) [
  | inl bare ↦
      let is : normalize_signaling_addr addr ≡ codes "wss://" ++ addr =
        unfold normalize_signaling_addr in rw (bare, normalize_signaling_addr) refl in
      (inr is, rw is (wss_stays addr))
  | inr (i, found) ↦
      let is = normalize_found addr i found in
      elim (Bool-cases (ltb 0 i)) [
        | inl later ↦
            let same : normalize_signaling_addr addr ≡ addr = is ∙ (rw later refl) in
            (inl same, ap normalize_signaling_addr same)
        | inr first ↦
            let added : normalize_signaling_addr addr ≡ codes "wss://" ++ addr =
              is ∙ (rw first refl) in
            (inr added, rw added (wss_stays addr))
      ]
]
