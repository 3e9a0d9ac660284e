-- ===== src/Tests/Servers.antt =====
-- The theorems on the documents and files of a host at concrete inputs.
use collab_mode.Prelude.{◌≡◌, refl, none, some, true, false, List, [], ◌∷◌, codes, arith, Text}
use collab_mode.Map.{nat_eq, text_eq, pair_eq, text_beq, lookup, contains_key}
use collab_mode.Config.{Config, default_config, write_allowed, delete_allowed, is_own}
use collab_mode.Document.{apply, shown}
use collab_mode.Op.{ins}
use collab_mode.Engine.Server.{new_server}
use collab_mode.Types.Files.{project, project_file, reserved_files_project}
use collab_mode.Paths.{is_absolute, path_starts_with, components, is_prefix, join}
use collab_mode.Docs.{Chunk}
use collab_mode.Docs.Serve.{Doc, PathId, buffer_id, path_id, apply_op}
use collab_mode.Docs.Server.{
  Disk, Server, NewSnapshot, snapshot, new_document_server, open_mode, request_file, close_file,
  remote, error_resp, io_error, resend_watch_files, resp, done,
}
use collab_mode.Docs.Server.Requested.{handle_request_file, handle_snapshot}
use collab_mode.Docs.Server.Open.Bytes.{InStep, apply_op-InStep}
use collab_mode.Docs.Server.Close.{handle_close_file_locally, handle_close_file_from_editor}
use collab_mode.Docs.Server.Close.Laws.{handle_close_file_locally-removes}
use collab_mode.Docs.Server.Close.Absolute.{handle_close_file_from_editor-unclosed}
use collab_mode.Docs.Server.Move.{moved_paths, handle_move_file}
use collab_mode.Docs.Server.Move.Laws.{handle_move_file-buffer}
use collab_mode.Docs.Server.Handle.{handle_remote_message}
use collab_mode.Docs.Server.Handle.ReadOnly.{Untouched, handle_remote_message-Untouched}
use collab_mode.Docs.Server.Handle.Tables.{handle_remote_message-Agrees}
use collab_mode.Docs.Remote.Laws.{Agrees, empty-Agrees}
use collab_mode.Docs.Server.Sites.Distinct.{Distinct}
use collab_mode.Docs.Server.Sites.Run.{Event, told, run, run-Distinct}
use collab_mode.Tests.Sample.{fat, server}
use collab_mode.Tests.Worlds.{bob}
use collab_mode.Tests.Ranges.{doc, chars, hello, doc-Represents}

-- A file system that answers everything, with one relative path.
abbrev disk : Disk
disk = record {
  exists = λ _. true;
  is_dir = λ _. false;
  opened = λ _ _. true;
  is_binary = λ _. false;
  content = λ _. some (codes "text");
  canonical = λ p. some p;
  written = λ _. true;
  dirs_made = λ _. true;
  renamed = λ _ _. true;
  removed = λ _. true;
  expanded = λ p. some p;
  diff_paths = λ _ _. some (codes "a.txt");
  parses = λ _. true;
  now = 9;
}

abbrev file : PathId → Doc
file place = record {
  name = codes "a.txt";
  abs_filename = place;
  canon_filename = none;
  file_desc = project_file (codes "p") (codes "a.txt");
  disk_file = none;
  engine = new_server 4;
  buffer = codes "text";
  subscribers = (bob, 0) ∷ [];
  last_saved_at = 0;
  next_external_site_seq = 1;
}

-- `bob` may neither write nor delete.
abbrev read_only : Config
read_only = record default_config {
  permission = (bob, record { write = false; create = true; delete = false }) ∷ [];
}

abbrev blank : Server
blank = new_document_server (codes "me") read_only

-- One file of a project, and one below another directory.
abbrev home : Server
home = record blank {
  next_doc_id = 3;
  docs = (1, file (path_id (codes "/p/a.txt"))) ∷ (2, file (path_id (codes "/q/b.txt"))) ∷ [];
  projects = (codes "p", record { name = codes "p"; root = codes "/p" }) ∷ [];
}

-- With a buffer behind the file.
abbrev with_buffer : Server
with_buffer = record home {
  docs = (1, file (path_id (codes "/p/a.txt"))) ∷ (2, file (buffer_id (codes "notes"))) ∷ [];
}

-- Nothing is at the new path.
abbrev moving : Disk
moving = record disk { exists = λ _. false }

-- A document whose engine stands for `chars`.
abbrev in_step : Doc
in_step = record (file (buffer_id (codes "notes"))) {
  engine = record server { internal_doc = doc };
  buffer = shown chars;
}

in_step-InStep : InStep in_step chars
in_step-InStep = record { represents = doc-Represents; text = refl }

abbrev no_diff : Text → Text → List Chunk
no_diff _ _ = []

handle_remote_message-Untouched_example :
    Untouched home
      (handle_remote_message no_diff disk (close_file (project (codes "p")) true) bob false home)
unfolding write_allowed delete_allowed is_own lookup new_document_server text_beq
handle_remote_message-Untouched_example =
    handle_remote_message-Untouched no_diff disk (close_file (project (codes "p")) true) bob false
      home refl refl refl

abbrev shot : NewSnapshot
shot = record {
  content = codes "text";
  internal_doc = doc;
  name = codes "a.txt";
  seq = 3;
  site_id = 2;
  file_desc = project_file (codes "p") (codes "a.txt");
  doc_id = 7;
}

handle_remote_message-Agrees_example : Agrees (handle_snapshot shot bob home).1.remote_docs
unfolding handle_remote_message lookup new_document_server
handle_remote_message-Agrees_example =
    handle_remote_message-Agrees no_diff disk (snapshot shot) bob true home
      (handle_snapshot shot bob home) empty-Agrees (refl, refl) refl

-- `bob` asks for a file, and then for another one.
abbrev events : List (Disk × Event)
events =
    (
      disk,
      told (request_file (project_file reserved_files_project (codes "/a")) open_mode) bob true,
    )
    ∷ (
      disk,
      told (request_file (project_file reserved_files_project (codes "/b")) open_mode) bob true,
    )
    ∷ []

abbrev ask : Text → Server → Server
ask path s = (handle_request_file disk (project_file reserved_files_project path) bob open_mode s).1

run-Distinct_example : Distinct (ask (codes "/b") (ask (codes "/a") blank))
unfolding run
run-Distinct_example =
    run-Distinct no_diff (codes "me") read_only events (ask (codes "/b") (ask (codes "/a") blank))
      (omega arith) refl

apply_op-InStep_example :
    (doc' : Doc) × (apply_op (fat none (ins (4, hello) 2) 1) in_step ≡ some (true, doc'))
    × InStep doc' (apply (ins (4, hello) 2) chars)
apply_op-InStep_example =
    apply_op-InStep (fat none (ins (4, hello) 2) 1) in_step chars 4 hello 2 refl in_step-InStep
      (omega arith) (omega arith) (omega arith)

-- A file of the project is closed, and the document of the other file stays.
handle_close_file_locally-removes_example :
    let s' =
      (handle_close_file_locally disk (project_file (codes "p") (codes "a.txt")) true home).2 in
    (lookup 1 s'.docs ≡ none) × (lookup (codes "me", 1) s'.remote_docs.docs ≡ none)
unfolding join path_starts_with is_prefix components lookup contains_key text_beq
    new_document_server
handle_close_file_locally-removes_example =
    handle_close_file_locally-removes disk (project_file (codes "p") (codes "a.txt")) true
      (record { name = codes "p"; root = codes "/p" }) home 1 (file (path_id (codes "/p/a.txt")))
      refl refl refl (refl, (refl, tt)) refl

handle_close_file_from_editor-unclosed_example :
    handle_close_file_from_editor disk
      (record {
        host_id = codes "me";
        project_id = reserved_files_project;
        file = codes "/q/b.txt";
      })
      true
      home
    ≡ (resend_watch_files home ∷ resp done ∷ [], home)
unfolding is_absolute new_document_server
handle_close_file_from_editor-unclosed_example =
    handle_close_file_from_editor-unclosed disk 47 (codes "q/b.txt") true home (refl, (refl, tt))

handle_move_file-buffer_example :
    (handle_move_file moving (codes "p") (codes "a.txt") (codes "d") bob with_buffer).0
    ≡ remote bob true (error_resp io_error none) ∷ []
unfolding moved_paths join lookup text_beq
handle_move_file-buffer_example =
    handle_move_file-buffer moving (codes "p") (codes "a.txt") (codes "d") (codes "/p/a.txt")
      (codes "/p/d") bob (codes "notes") with_buffer ((1, file (path_id (codes "/p/a.txt"))) ∷ []) 2
      (file (buffer_id (codes "notes"))) [] refl refl refl
