-- ===== src/Docs/Server/Sites/Distinct.antt =====
-- The site ids of hosts, and what a request for a file does to them.
use collab_mode.Prelude.{
  ℕ, ◌+◌, ◌^◌, ◌<◌, ◌≤◌, ◌≡◌, refl, ap, sym, ◌∙◌, inl, inr, Option-cases, some, Text, arith,
}
use collab_mode.Map.{text_eq, nat_eq, lookup}
use collab_mode.Map.Laws.{insert_cases}
use collab_mode.Types.Files.{FileDesc, project, project_file}
use collab_mode.Docs.Serve.{PathId}
use collab_mode.Docs.Server.{Disk, OpenMode, Server, site_id_of, path_id_from_file_desc}
use collab_mode.Docs.Server.Requested.{
  handle_request_file, answer_request, request_from_disk, first_match,
}
use collab_mode.Docs.Server.Sites.{SameSites}

-- The site ids that were given out lie between 0, which is this host's own, and the next one, and
-- belong to one host each.
pub record Distinct (s : Server) : Type 0 where
  pub own : s.site_id ≡ 0
  pub positive : 0 < s.next_site_id
  pub below :
      (host : Text) (n : ℕ) → lookup host s.site_id_map ≡ some n → (0 < n) × (n < s.next_site_id)
  pub one_host :
      (h k : Text) (n : ℕ)
      → lookup h s.site_id_map ≡ some n
      → lookup k s.site_id_map ≡ some n
      → h ≡ k

SameSites-Distinct : (s s' : Server) → SameSites s s' → Distinct s → Distinct s'
SameSites-Distinct s s' (ids, next, own) ok = record {
  own = own ∙ ok.own;
  positive = omega (arith, next, ok.positive);
  below = λ host n e.
      let (low, high) = ok.below host n (ap (λ m. lookup host m) (sym ids) ∙ e) in
      (low, omega (arith, next));
  one_host = λ h k n e f.
      ok.one_host h k n (ap (λ m. lookup h m) (sym ids) ∙ e) (ap (λ m. lookup k m) (sym ids) ∙ f);
}

site_id_of-Distinct :
    (host : Text) (s : Server)
    → s.next_site_id + 1 < 2 ^ 32
    → Distinct s
    → Distinct (site_id_of host s).1
unfolding site_id_of
site_id_of-Distinct host s small ok = elim (Option-cases (lookup host s.site_id_map)) [
  | inr (n, e) ↦ rw (e, site_id_of) ok
  | inl e ↦
      rw (e, site_id_of)
        (record {
          own = ok.own;
          positive = omega arith;
          below = λ h n f. elim (insert_cases host h s.next_site_id n s.site_id_map f) [
            | inl (_, is) ↦ (omega (arith, is, ok.positive), omega (arith, is))
            | inr (_, old) ↦ let (low, high) = ok.below h n old in (low, omega arith)
          ];
          one_host = λ h k n f g. elim (insert_cases host h s.next_site_id n s.site_id_map f) [
            | inl (is_h, is) ↦ elim (insert_cases host k s.next_site_id n s.site_id_map g) [
              | inl (is_k, _) ↦ sym is_h ∙ is_k
              | inr (_, old) ↦ absurd (omega (arith, is, (ok.below k n old).1))
            ]
            | inr (_, old_h) ↦ elim (insert_cases host k s.next_site_id n s.site_id_map g) [
              | inl (is_k, is) ↦ absurd (omega (arith, is, (ok.below h n old_h).1))
              | inr (_, old_k) ↦ ok.one_host h k n old_h old_k
            ]
          ];
        })
]

-- What is done after the site id was given out leaves the table.
request_from_disk-SameSites :
    (disk : Disk) (id file : Text) (mode : OpenMode) (host : Text) (site : ℕ) (s : Server)
    → SameSites s (request_from_disk disk id file mode host site s).1
unfolding request_from_disk
request_from_disk-SameSites disk id file mode host site s = ground arith

answer_request-SameSites :
    (disk : Disk) (desc : FileDesc) (path : PathId) (host : Text) (mode : OpenMode) (site : ℕ)
    (s : Server)
    → SameSites s (answer_request disk desc path host mode site s).1
unfolding answer_request
answer_request-SameSites disk (project _) path host mode site s = (refl, refl, refl)
answer_request-SameSites disk (project_file id file) path host mode site s =
    elim (Option-cases (first_match path s.docs)) [
      | inl e ↦ rw (e, answer_request) (request_from_disk-SameSites disk id file mode host site s)
      | inr (_, e) ↦ rw (e, answer_request) (refl, refl, refl)
    ]

-- At most `n` is the next id.
abbrev pub Counted : ℕ → Server → Type 0
Counted n s = Distinct s × (s.next_site_id ≤ n)

pub SameSites-Counted : (n : ℕ) (s s' : Server) → SameSites s s' → Counted n s → Counted (n + 1) s'
SameSites-Counted n s s' same (ok, count) = (SameSites-Distinct s s' same ok, omega (arith, same.1))

next-site_id_of :
    (host : Text) (s : Server)
    → s.next_site_id + 1 < 2 ^ 32
    → (site_id_of host s).1.next_site_id ≤ s.next_site_id + 1
unfolding site_id_of
next-site_id_of host s small = elim (Option-cases (lookup host s.site_id_map)) [
  | inl e ↦ rw (e, site_id_of) (omega arith)
  | inr (_, e) ↦ rw (e, site_id_of) (omega arith)
]

pub handle_request_file-Counted :
    (n : ℕ) (disk : Disk) (desc : FileDesc) (host : Text) (mode : OpenMode) (s : Server)
    → n + 1 < 2 ^ 32
    → Counted n s
    → Counted (n + 1) (handle_request_file disk desc host mode s).1
unfolding handle_request_file
handle_request_file-Counted n disk desc host mode s small (ok, count) =
    elim (Option-cases (path_id_from_file_desc desc s)) [
      | inl e ↦ rw (e, handle_request_file) (ok, omega arith)
      | inr (path, e) ↦
          let s' = (site_id_of host s).1 in
          let fits : s.next_site_id + 1 < 2 ^ 32 = omega arith in
          let same = answer_request-SameSites disk desc path host mode (site_id_of host s).0 s' in
          let done = SameSites-Distinct s' _ same (site_id_of-Distinct host s fits ok) in
          rw (e, handle_request_file) (done, omega (arith, same.1, next-site_id_of host s fits))
    ]
