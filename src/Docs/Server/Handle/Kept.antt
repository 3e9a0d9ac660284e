-- ===== src/Docs/Server/Handle/Kept.antt =====
-- What an operation on the table of hosted documents leaves as it is, and what goes out to other
-- hosts and to the editor only.
use collab_mode.Prelude.{
  ℕ, ◌≡◌, refl, sym, ◌∙◌, inl, inr, Bool-cases, Option-cases, none, some, List, [], ◌∷◌, map, Text,
  All,
}
use collab_mode.Map.{nat_eq, text_eq, text_beq, lookup, insert}
use collab_mode.Map.Laws.{lookup-insert}
use collab_mode.Docs.Serve.{Doc, DocMsg, handle_request_ops}
use collab_mode.Docs.Follow.{Sent, stop_sending_ops, request_ops, remote_ops_arrived, no_global_seq}
use collab_mode.Docs.Server.{Info, Out, write_file, Server, hosted}
use collab_mode.Docs.Server.Send.{tell_except}
use collab_mode.Docs.Server.Handle.{serve_out, follow_out, take_request_ops, unsubscribe}

-- The same text, history and place.
pub record SameDoc (doc doc' : Doc) : Type 0 where
  pub buffer : doc'.buffer ≡ doc.buffer
  pub engine : doc'.engine ≡ doc.engine
  pub place : doc'.abs_filename ≡ doc.abs_filename

abbrev pub Kept : List (ℕ × Doc) → List (ℕ × Doc) → Type 0
Kept docs docs' =
    (id : ℕ) (doc : Doc)
    → lookup id docs ≡ some doc
    → (doc' : Doc) × (lookup id docs' ≡ some doc') × SameDoc doc doc'

-- It is no write to a file.
abbrev pub IsMessage : Out → Type 0
IsMessage (write_file _ _) = ⊥
IsMessage _ = Unit {0}

pub Kept-self : (docs : List (ℕ × Doc)) → Kept docs docs
Kept-self docs id doc found = (doc, found, record { buffer = refl; engine = refl; place = refl })

pub Kept-insert :
    (at : ℕ) (old new : Doc) (docs : List (ℕ × Doc))
    → lookup at docs ≡ some old
    → SameDoc old new
    → Kept docs (insert at new docs)
Kept-insert at old new docs there same id doc found = elim (Bool-cases (nat_eq.beq at id)) [
  | inl e ↦
      let is : at ≡ id = (nat_eq.beq_iff at id).0 e in
      let old_is : old ≡ doc = let both : some old ≡ some doc = sym there ∙ (rw is found) in cc in
      (new, (lookup-insert at id new docs ∙ rw e refl), rw (← old_is) same)
  | inr e ↦ (
    doc,
    (lookup-insert at id new docs ∙ rw e found),
    record { buffer = refl; engine = refl; place = refl },
  )
]

pub Kept-insert_fresh :
    (at : ℕ) (new : Doc) (docs : List (ℕ × Doc))
    → lookup at docs ≡ none
    → Kept docs (insert at new docs)
Kept-insert_fresh at new docs free id doc found = elim (Bool-cases (nat_eq.beq at id)) [
  | inl e ↦
      let is : at ≡ id = (nat_eq.beq_iff at id).0 e in
      let both : none ≡ some doc = sym free ∙ (rw is found) in absurd (cc)
  | inr e ↦ (
    doc,
    (lookup-insert at id new docs ∙ rw e found),
    record { buffer = refl; engine = refl; place = refl },
  )
]

pub serve_out-IsMessage : (msgs : List (Text × DocMsg)) → All IsMessage (serve_out msgs)
serve_out-IsMessage [] = tt
serve_out-IsMessage (m ∷ ms) = (tt, serve_out-IsMessage ms)

pub follow_out-IsMessage :
    (host : Text) (out : List Sent) → All IsMessage (map (follow_out host) out)
follow_out-IsMessage host [] = tt
follow_out-IsMessage host (stop_sending_ops _ ∷ out) = (tt, follow_out-IsMessage host out)
follow_out-IsMessage host (request_ops _ _ ∷ out) = (tt, follow_out-IsMessage host out)
follow_out-IsMessage host (remote_ops_arrived _ ∷ out) = (tt, follow_out-IsMessage host out)
follow_out-IsMessage host (no_global_seq ∷ out) = (tt, follow_out-IsMessage host out)

pub tell_except-IsMessage :
    (sender : Text) (info : Info) (hosts : List (Text × ℕ))
    → All IsMessage (tell_except sender info hosts)
unfolding tell_except
tell_except-IsMessage sender info [] = tt
tell_except-IsMessage sender info ((host, n) ∷ hosts) = elim (Bool-cases (text_beq host sender)) [
  | inl e ↦ rw e (tell_except-IsMessage sender info hosts)
  | inr e ↦ rw e (tt, tell_except-IsMessage sender info hosts)
]

pub unsubscribe-Kept :
    (doc : ℕ) (host : Text) (s : Server) → Kept s.docs (unsubscribe doc host s).docs
unfolding unsubscribe
unsubscribe-Kept doc host s = elim (Option-cases (lookup doc s.docs)) [
  | inl e ↦ rw (e, unsubscribe) (Kept-self s.docs)
  | inr (d, e) ↦
      rw (e, unsubscribe)
        (Kept-insert doc d _ s.docs e (record { buffer = refl; engine = refl; place = refl }))
]

pub take_request_ops-Kept :
    (doc after : ℕ) (host : Text) (s : Server)
    → Kept s.docs (take_request_ops doc after host s).1.docs
unfolding take_request_ops handle_request_ops
take_request_ops-Kept doc after host s = elim (Option-cases (lookup doc s.docs)) [
  | inl e ↦ rw (e, handle_request_ops) (Kept-self s.docs)
  | inr (d, e) ↦
      rw (e, handle_request_ops)
        (Kept-insert doc d _ s.docs e (record { buffer = refl; engine = refl; place = refl }))
]

pub take_request_ops-IsMessage :
    (doc after : ℕ) (host : Text) (s : Server) → All IsMessage (take_request_ops doc after host s).0
unfolding take_request_ops
take_request_ops-IsMessage doc after host s =
    serve_out-IsMessage (handle_request_ops doc after host (hosted s)).0
