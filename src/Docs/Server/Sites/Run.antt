-- ===== src/Docs/Server/Sites/Run.antt =====
-- The site ids of hosts over sequences of requests and messages.
use collab_mode.Prelude.{
  ℕ, ◌+◌, ◌^◌, ◌<◌, ◌≡◌, refl, ap, sym, ◌∙◌, Bool, true, false, inl, inr, ◌⊎◌, ◌>>=◌, Option, none,
  some, List, [], ◌∷◌, Text, arith, length,
}
use collab_mode.Map.{text_eq, nat_eq, lookup}
use collab_mode.Types.Files.{FileDesc}
use collab_mode.Config.{Config}
use collab_mode.Docs.{Chunk}
use collab_mode.Docs.Server.{
  Disk, Msg, served, snapshot, error_resp, project_refused, missing_req_id, make_directory,
  directory_made, op_from_client, request_ops_after, stop_sending, save_file, file_saved,
  reset_from_disk, move_file, file_moved, close_file, file_deleted, file_closed, info_from_client,
  info_from_server, OpenMode, request_file, Server, Step, new_document_server,
}
use collab_mode.Docs.Server.Requested.{handle_request_file}
use collab_mode.Docs.Server.Handle.{handle_remote_message}
use collab_mode.Docs.Server.Handle.Requests.{Request, handle_editor_request}
use collab_mode.Docs.Server.Sites.Messages.{request-SameSites, IsOther, message-SameSites}
use collab_mode.Docs.Server.Sites.Distinct.{
  Distinct, Counted, SameSites-Counted, handle_request_file-Counted,
}

is_request :
    (msg : Msg)
    → IsOther msg ⊎ ((desc : FileDesc) × (mode : OpenMode) × (msg ≡ request_file desc mode))
is_request (request_file desc mode) = inr (desc, mode, refl)
is_request (served _) = inl tt
is_request (snapshot _) = inl tt
is_request (error_resp _ _) = inl tt
is_request project_refused = inl tt
is_request missing_req_id = inl tt
is_request (make_directory _) = inl tt
is_request (directory_made _) = inl tt
is_request (op_from_client _) = inl tt
is_request (request_ops_after _ _) = inl tt
is_request (stop_sending _) = inl tt
is_request (save_file _) = inl tt
is_request (file_saved _) = inl tt
is_request (reset_from_disk _) = inl tt
is_request (move_file _ _ _) = inl tt
is_request (file_moved _ _ _) = inl tt
is_request (close_file _ _) = inl tt
is_request (file_deleted _) = inl tt
is_request (file_closed _) = inl tt
is_request (info_from_client _) = inl tt
is_request (info_from_server _) = inl tt

-- A request of the editor, or a message of a host with or without the id of a request.
pub data Event : Type 0 where
  asked : Request → Event
  told : Msg → Text → Bool → Event

abbrev pub state_after : Option Step → Option Server
state_after none = none
state_after (some step) = some step.1

module _ (diff : Text → Text → List Chunk) where
  abbrev pub handle : Disk → Event → Server → Option Step
  handle disk (asked request) s = handle_editor_request diff disk request s
  handle disk (told msg host req) s = handle_remote_message diff disk msg host req s

  -- A sequence of events, each with what the file system answers; `none` is a panic.
  unfoldable pub run : List (Disk × Event) → Server → Option Server
  unfolding handle_editor_request handle_remote_message
  run [] s = some s
  run ((disk, event) ∷ events) s =
      let rest = λ (s : Server). run events s in state_after (handle disk event s) >>= rest

  file-Counted :
      (n : ℕ) (disk : Disk) (desc : FileDesc) (mode : OpenMode) (host : Text) (req : Bool)
      (s : Server) (step : Step)
      → n + 1 < 2 ^ 32
      → Counted n s
      → handle_remote_message diff disk (request_file desc mode) host req s ≡ some step
      → Counted (n + 1) step.1
  unfolding handle_remote_message
  file-Counted n disk desc mode host true s step small ok e =
      let made : handle_request_file disk desc host mode s ≡ step = cc in
      rw⁻¹ made (handle_request_file-Counted n disk desc host mode s small ok)
  file-Counted n disk desc mode host false s step small (ok, count) e =
      let made : s ≡ step.1 = ground arith in rw⁻¹ made (ok, omega arith)

  message-Counted :
      (n : ℕ) (disk : Disk) (msg : Msg) (host : Text) (req : Bool) (s : Server) (step : Step)
      → n + 1 < 2 ^ 32
      → Counted n s
      → handle_remote_message diff disk msg host req s ≡ some step
      → Counted (n + 1) step.1
  message-Counted n disk msg host req s step small ok e = elim (is_request msg) [
    | inl other ↦
        SameSites-Counted n s step.1 (message-SameSites diff disk msg host req s step other e) ok
    | inr (desc, mode, is) ↦
        file-Counted n disk desc mode host req s step small ok
          (ap (λ m. handle_remote_message diff disk m host req s) (sym is) ∙ e)
  ]

  handle-Counted :
      (n : ℕ) (disk : Disk) (event : Event) (s : Server) (step : Step)
      → n + 1 < 2 ^ 32
      → Counted n s
      → handle disk event s ≡ some step
      → Counted (n + 1) step.1
  handle-Counted n disk (asked request) s step small ok e =
      SameSites-Counted n s step.1 (request-SameSites diff disk request s step e) ok
  handle-Counted n disk (told msg host req) s step small ok e =
      message-Counted n disk msg host req s step small ok e

  run_cases :
      (events : List (Disk × Event)) (r : Option Step) (s' : Server)
      → (state_after r >>= λ s. run events s) ≡ some s'
      → (step : Step) × (r ≡ some step) × (run events step.1 ≡ some s')
  run_cases events none s' e = absurd (cc)
  run_cases events (some step) s' e = (step, refl, e)

  run-Counted :
      (n : ℕ) (events : List (Disk × Event)) (s s' : Server)
      → n + length events < 2 ^ 32
      → Counted n s
      → run events s ≡ some s'
      → Distinct s'
  unfolding run
  run-Counted n [] s s' small (ok, count) e = let same : s ≡ s' = cc in rw⁻¹ same ok
  run-Counted n ((disk, event) ∷ events) s s' small ok e =
      let (step, is, rest) = run_cases events (handle disk event s) s' e in
      run-Counted (n + 1) events step.1 s' (omega arith)
        (handle-Counted n disk event s step (omega arith) ok is) rest

new-Counted : (host : Text) (config : Config) → Counted 1 (new_document_server host config)
unfolding new_document_server lookup
new-Counted host config = (
  record {
    own = refl;
    positive = omega arith;
    below = λ h n e. absurd (cc);
    one_host = λ h k n e f. absurd (cc);
  },
  omega arith,
)

-- After any sequence of fewer than `2 ^ 32 - 1` requests of the editor and messages of other hosts,
-- whatever the file system answers, the site ids that the server gave out are not 0, which is its
-- own, are all below the next one, and no two hosts have the same.
pub run-Distinct :
    (diff : Text → Text → List Chunk) (host : Text) (config : Config) (events : List (Disk × Event))
    (s : Server)
    → 1 + length events < 2 ^ 32
    → run diff events (new_document_server host config) ≡ some s
    → Distinct s
run-Distinct diff host config events s small e =
    run-Counted diff 1 events (new_document_server host config) s small (new-Counted host config) e
