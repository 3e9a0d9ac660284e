-- ===== src/Docs/Server/Share.antt =====
-- Sharing a text of the editor as a file or a buffer (collab_mode/src/server.rs).
use collab_mode.Prelude.{false, ◌&&◌, Option, none, some, [], ◌∷◌, Text, length, if◌then◌else◌}
use collab_mode.Map.{text_eq, nat_eq, insert}
use collab_mode.Types.Files.{
  FileDesc, project_file, new_editor_desc, reserved_buffers_project, reserved_files_project,
}
use collab_mode.Paths.{is_absolute}
use collab_mode.InternalDoc.{new}
use collab_mode.Engine.{add_u32}
use collab_mode.Engine.Server.{new_server}
use collab_mode.Engine.Client.{new_client}
use collab_mode.Docs.Serve.{Doc, buffer_id, path_id}
use collab_mode.Docs.Remote.{RemoteDoc, insert_remote_doc}
use collab_mode.Docs.Server.{file_shared, resp, Disk, Server, Step, path_id_from_file_desc}
use collab_mode.Docs.Server.Open.{byte_len, name_or, new_doc}
use collab_mode.Docs.Server.Requested.{first_match}

abbrev pub share_desc : Text → Text → FileDesc
share_desc given expanded =
    if is_absolute expanded
    then project_file reserved_files_project expanded
    else project_file reserved_buffers_project given

-- The document made of the editor's text, with this host as its subscriber.
unfoldable pub shared_doc : Disk → Text → Text → FileDesc → Text → Server → Doc
unfolding new_doc new_server byte_len
shared_doc disk given filename desc content s =
    let there = disk.exists filename in
    let doc =
      new_doc disk given (if there then path_id filename else buffer_id filename) desc content
        (new_server (byte_len content))
        (if there && disk.opened filename false then some filename else none) in
    record doc { subscribers = insert s.host_id 0 doc.subscribers }

-- `none` is the error, which goes to the editor as an internal one.
unfoldable pub handle_share_file_from_editor : Disk → Text → Text → Server → Option Step
unfolding shared_doc path_id_from_file_desc first_match insert_remote_doc new_editor_desc new_client
    new
handle_share_file_from_editor disk given content s =
    let filename = name_or given (disk.expanded given) in
    let desc = share_desc given filename in
    elim (path_id_from_file_desc desc s) [
      | none ↦ none
      | some path ↦ elim (first_match path s.docs) [
        | some _ ↦ none
        | none ↦
            (let d : RemoteDoc = record {
              name = given;
              file_desc = desc;
              next_site_seq = 1;
              remote_op_buffer = [];
              engine = new_client s.site_id 0 (new (length content));
              buffer = content;
            } in
              let editor_desc = new_editor_desc desc s.host_id in
              some (
                resp (file_shared editor_desc s.site_id) ∷ [],
                record s {
                  next_doc_id = add_u32 s.next_doc_id 1;
                  docs =
                      insert s.next_doc_id (shared_doc disk given filename desc content s) s.docs;
                  remote_docs =
                      insert_remote_doc s.host_id s.next_doc_id d editor_desc s.remote_docs;
                },
              ))
      ]
    ]
