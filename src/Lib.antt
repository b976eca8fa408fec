-- ===== src/Lib.antt =====
-- SandD: a controller (server/) that daemons (sandd/) connect to over WebSockets, so that commands,
-- sessions, file transfers and snapshots of a workspace reach the daemons' machines. The messages
-- are those of protocol/. This library models the controller with its Python methods, the daemon with
-- its handlers and its tunnel, and the snapshot store.
--
-- Parts and files:
-- - Protocol: protocol/src/lib.rs, `Message`, `SnapshotInfo`, `DaemonMetadata`.
-- - Server/Connection: server/src/registry.rs, `DaemonConnection` and `FileTransfer`. A channel is a
--   number, and what is sent on it is returned or logged in `World`.
-- - Server/Registry: server/src/registry.rs, `DaemonRegistry`. An `Arc<DaemonConnection>` is an index
--   into a heap that only grows, as a handle outlives its entry. Well-formedness is in
--   Registry/Invariant, sweeps and label queries in Registry/Stale, statistics in Registry/Stats.
-- - Server/Handler: server/src/server.rs, `handle_daemon_message`, `handle_heartbeat` and one tick of
--   `heartbeat_monitor`. Handler/Recovery is about heartbeats, evictions and registering again.
-- - Server/Websocket: server/src/server.rs, `websocket_handler` and `handle_websocket`. `run` is many
--   sockets and the monitor, interleaved by a schedule with times.
-- - Server/Stats: server/src/server.rs, the bodies of the HTTP endpoints.
-- - Daemon/Serve: sandd/src/main.rs, `serve`: the biased `select!`, acks and the ack deadline.
--   Serve/Reregister joins it to the controller's handler, Serve/Liveness is about its deadline,
--   Serve/Order about what it writes first.
-- - Daemon/Reconnect: sandd/src/main.rs, the loop of `main`. Daemon/Download: the chunks of a file.
--   Daemon/Arguments: its id, its labels and which way it dials.
-- - Daemon/Messages: sandd/src/main.rs, `handle_message`, over Daemon/Executor (sandd/src/executor.rs),
--   Daemon/Sessions (sandd/src/session.rs), Daemon/Download and Snapshot/Manager. Messages/Answers and
--   Messages/Lost are about its responses, Messages/Invariant about its sessions and about downloads
--   that break off, Sessions/Stream about the output of a terminal. Messages/Storage and
--   Messages/Survival are about the store under one message after another.
-- - Server/Api: server/src/python.rs, the methods of `Server` and `Session`. Api/Snapshots, Api/Files,
--   Api/Sessions, Api/Daemons and Api/Start are its definitions; the other children are theorems, in
--   which the daemon's own handler is at the other end.
-- - Tunnel: sandd/src/main.rs, `setup_tunnel`, and server/src/python.rs, `setup_tunnel_controller` and
--   `get_mesh_ip`, as runs that list their steps.
-- - Snapshot/Types: sandd/src/snapshot/types.rs and tree.rs.
-- - Snapshot/Disk: the file system below the snapshot root. Each operation that can fail takes one
--   entry of a schedule of failures, also where it is on the workspace or the destination; a write that
--   fails leaves an arbitrary content.
-- - Snapshot/ObjectStore: sandd/src/snapshot/object_store.rs.
-- - Snapshot/Tags, Snapshot/Build, Snapshot/Restore, Snapshot/Manager: sandd/src/snapshot/manager.rs,
--   the tags, `build_tree`, `restore_tree` and the public operations. Snapshot/Workspace is the
--   directory tree that is read and written. Snapshot/Keeps says what an operation leaves of the store
--   when anything fails; the files named Safety, and Manager/Untouched, apply it to each.
-- - Tests: the theorems at concrete inputs.
--
-- How they interact: the handler changes the registry through the operations of Server/Registry, and
-- a socket's loop calls the handler and cleans up with `disconnect`. The daemon's loop reads the
-- handler's frames. A method of Server/Api registers its request, puts a message on the channel of a
-- daemon and waits; Daemon/Messages handles the message, and Server/Handler its answer. The manager
-- uses the object store, which uses the disk.
--
-- Parameters: JSON and UTF-8 (`Encoding`, `from_str`, `to_string`), of which the snapshots need that
-- what was written is read back; BLAKE3 (`Blake3`), whose digests are hexadecimal and at least three
-- bytes long, and whose hasher ends with the digest of the bytes that it was given, and, where a theorem says so, without
-- collisions; the reads of a file (`IsReader`); the clock and new ids, as arguments; `trim`, for the
-- text of a tag's file and of an address; the messages that `handle_message` writes, for the loop of
-- `serve`; the answers of processes, terminals and the commands of Tailscale (`Environment`, `Mesh`);
-- the texts of the errors of snapshots (`show`); `pythonize`, for the metadata of snapshots; what
-- reaches a caller while it waits (`Wait`).
--
-- Bounds and fuel: counters of `u64` and `usize` keep their remainder at 2^64 in `add_built` and
-- `add_chunk`; times do not reach it. `restore_tree` follows hashes and so goes by fuel: fuel that is
-- more than the nesting of the directories is enough. `chunks` takes the number of bytes as fuel, which
-- is enough as each chunk takes at least one. `await_proxy` and `await_ip` have the bounds of the loops
-- of the source, 20 and 30.
--
-- Not modelled: what a command or a terminal does, the flags of commands, the HTTP router and the text
-- of its JSON, `__repr__` and the classes' registration with Python, the options of the command line, and logging.
-- The reader of a terminal runs on its own: its messages are not interleaved with those of a handler.
-- Texts of errors are kept where a caller sees them, and shortened in Tunnel. What a restore that fails
-- leaves at its destination is not kept. Ids of snapshots are taken as file names. Where `restore_tree` would go
-- through a link that stands at the destination, the model stops. Operations of the snapshot manager
-- do not overlap; sockets and the monitor interleave by whole rounds.
pub mod Prelude
pub mod Protocol
pub mod Server
pub mod Daemon
pub mod Snapshot
pub mod Tunnel
pub mod Tests
