-- ===== src/Lib.antt =====
-- The core of collab-mode: the operations that sites exchange, the internal document with
-- tombstones, the engines of a client and of the server, the documents and files of a host with the
-- requests of its editor and the messages of other hosts, the connections between hosts, and the
-- signaling server that brings them together.
--
-- Parts and files (paths from the repository's root):
-- - collab_mode/src/op.rs: Op is `Op` with `transform`, `transform_ii`, `transform_di` and
--   `inverse`; FatOp is `FatOp<O>` with `batch_transform`, `symmetric_transform` and
--   `quatradic_transform`, over the trait `Operation` as an instance argument.
-- - collab_mode/src/types.rs: Types has the operations and instructions of the editor, Types.Files
--   the file descriptors and projects.
-- - collab_mode/src/engine.rs, `InternalDoc`: InternalDoc has the ranges and cursors,
--   InternalDoc.Convert `convert_pos`, InternalDoc.Insert `apply_ins`, InternalDoc.Iterator
--   `RangeIterator`, InternalDoc.Mark the loop that `apply_mark_dead` and `apply_mark_live` share,
--   with Mark.Fuel about its end, InternalDoc.Apply what surrounds it, and InternalDoc.Edits
--   `mark_to_ins_or_del`, `convert_editor_op_and_apply` and `convert_internal_op_and_apply`.
--   Below InternalDoc.Convert and InternalDoc.Insert are the lemmas on the loops, the cases and the
--   cursors, and below InternalDoc.Edits (FromEditor, ToEditor, Synced, Lengths) what ties them
--   together.
-- - collab_mode/src/engine.rs, the engines: Engine.History is `GlobalHistory`, Engine.Server
--   `ServerEngine`, Engine.Client `ClientEngine`, with Engine.Client.Undo for
--   `generate_undo_op_1`, Engine.Client.Local for `process_local_op` and Engine.Client.Remote for
--   `process_remote_op`.
-- - collab_mode/src/server.rs, the connections: World is `WorldState` and its operations, World.Pass
--   the state that the passes run over and what goes out, World.Fix `fix_world` with Fix.Remotes,
--   Fix.Timeouts and Fix.Signaling for its three passes, and World.Events the handlers of the
--   messages and notifications that change the connections. World.Setup has what `init_for_envoy`
--   and the request `UpdateConfig` do to the ideal world. World.Reach is the main loop as far as it
--   concerns the connections. The other files below World hold what is proved: Stride, Invariant,
--   Declared, Deadline, Attempt, Messages, Trust, and Answered for a host together with the
--   signaling server.
-- - collab_mode/src/signaling.rs and signaling/server.rs: Signaling has the messages, and
--   Signaling.Server the endpoints, `handle_message` and the life of a connection.
-- - collab_mode/src/types.rs, the ids: Types.Ids has `make_id`, `id_name`, `id_hash` and
--   `normalize_signaling_addr`; collab_mode/src/config_man.rs: Config has names and permissions.
-- - collab_mode/src/server.rs, the documents: Docs has `chunks_to_ops`, Docs.Serve `Doc`,
--   `handle_op_from_client` and `handle_request_ops`, Docs.Remote `RemoteDoc` and the two tables of
--   `RemoteDocs`, Docs.Follow `handle_op_from_server`, which fills the buffer of a `RemoteDoc`.
--   `dissimilar::diff` is third-party code and an argument: what is proved of `chunks_to_ops` holds
--   of any list of its chunks.
-- - collab_mode/src/server.rs, the host: Docs.Server has the state `Server`, the messages between
--   hosts, the answers to the editor and what is asked of the file system. Below it, Open has
--   opening a file (`open_file_from_editor`), Requested the files that other hosts ask for and the
--   snapshots (`handle_request_file`, `handle_snapshot`), Share `handle_share_file_from_editor`,
--   Close closing and deleting (`handle_close_file_locally` and its callers), Move
--   `move_file_on_disk` and its callers, Send `handle_send_ops_from_editor`, undo and passing
--   information on, Save saving and `reset_doc_from_disk`, and Handle `handle_remote_message` with
--   Handle.Requests for `handle_editor_request`. Open.Bytes, Open.Anywhere, Close.Laws,
--   Close.Absolute, Move.Laws, Handle.ReadOnly, Handle.Tables and Sites hold what is proved. In
--   Sites.Run a host takes a sequence of requests and messages.
-- - Paths is `std::path` on Unix, as far as the host uses it.
-- - Map is `HashMap` of the standard library as a list of entries.
-- - Document is the independent description: a document is the sequence of its characters, each
--   live or a tombstone, with what an operation does to it. InternalDoc.Flags relates the ranges
--   to it. Tests runs the model and applies the theorems at concrete inputs.
--
-- How the parts interact: a client turns an operation of its editor into an internal one, applies
-- it to its internal document and keeps it pending in its history. The server transforms what a
-- client sends against what that client had not seen, numbers it and appends it to its timeline.
-- A client that receives an operation of the timeline transforms it against its pending ones.
-- Under these, a host keeps an ideal world, which the editor declares, and a current one, and
-- `fix_world` starts and closes connections until the two agree. A connection is arranged by
-- messages that the signaling server passes on between the hosts that are bound to it.
--
-- Conventions: a text is the list of its code points, which is what the code counts but for the
-- sizes of new server engines, which are numbers of bytes. Sums and differences of `u64`, `usize`
-- and `u32` are written with their wrap-around, as in a release build, except an index or offset
-- that is one or two behind an index of a vector. Where the code panics or leaves the process, the
-- model returns `none`; `debug_assert!` is not part of a release build and left out. A method that
-- can fail returns its result beside the state that it leaves. A map from sites to cursors is an
-- association list. Logging is left out. In the connections an `Instant` is a number of
-- nanoseconds, and time stands still within one handler or pass. The clocks, the random connection
-- ids, and the errors of binding, of sending and of making a certificate are arguments.
-- Notifications, messages and calls of the channels are a list of effects beside the state. A set
-- of hosts is a list, and two sets are equal where each contains the other. In the documents and
-- files the file system, `expanduser` and `pathdiff` are a record of functions, `Disk`, that
-- answers throughout one request: `opened` is whether a file opens, the second argument whether it
-- may be made, `content` what is read, `written`, `renamed`, `removed` and `dirs_made` whether a
-- call succeeds, and several calls in a row that write one file are one; `parses` is whether
-- `serde_json` reads a text. An open file is named by the path at which it was opened, and
-- `write_file` with that path is a write through its handle, which goes to the file wherever it has
-- been moved since.
-- What goes out is a list beside the state, and the texts of errors, the metadata and what is only
-- logged are left out. The frames that a signaling connection sends carry the number of the
-- connection to whose stream they go; that a stream is gone is an argument too.
--
-- Fuel: `mark_loop` and `capture_loop` move one range to the right in each round, and `undo_loop`
-- one entry along its queue, and each panics past the end, so that one more round than there are
-- ranges or entries is enough. `forward` and `backward` recur on the ranges that are left.
--
-- Not modelled: the listing of projects and files, the state of connections and the printing of a
-- history for the editor (collab_mode/src/server.rs), which change nothing, the web channel, the
-- signaling client, the headers of a bind request, the files and certificates of the configuration,
-- and the editor front ends, which are mostly input and output.
pub mod Prelude
pub mod Op
pub mod FatOp
pub mod Map
pub mod Types
pub mod Paths
pub mod Document
pub mod InternalDoc
pub mod Engine
pub mod Signaling
pub mod World
pub mod Config
pub mod Docs
mod Tests
