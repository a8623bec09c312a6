-- ===== src/Lib.antt =====
-- A model of remerge, a distributed binary-package builder for Gentoo, and its theorems.
--
-- A client (crates/cli) sends the atoms it wants built, with its Portage configuration, to a
-- server (crates/server). The server checks who asks and what for, queues a workorder, runs one
-- worker container (crates/worker) for each in turn, relays what the worker reports, and keeps the
-- result until it is evicted. The types that they share are in crates/types.
--
-- The parts and their modules:
-- + Prelude: tests on numbers, lists, results, texts as lists of code points, dictionaries as
--   association lists (HashMap and BTreeMap).
-- + Types: crates/types/src/{client,auth,workorder,portage,trace}.rs, struct by struct.
-- + Atom: crates/types/src/validation.rs, `validate_atom`. Atom.Grammar has the grammar of the atoms
--   that it accepts, written without the validator.
-- + Registry: crates/server/src/registry.rs, the `ClientRegistry` with `update`,
--   `set_active_workorder` and `clear_active_workorder` as functions on the map behind its lock.
-- + Auth: crates/server/src/auth.rs, `CertRegistry::new`, `resolve`, `resolve_header_only` and
--   `normalise_fingerprint`.
-- + Repo: crates/server/src/repo.rs, `extract_package_base`.
-- + Server.State: crates/server/src/{state,metrics}.rs, `AppState` as one record and the operations
--   on its channels and counters.
-- + Server.Config: `ServerConfig::validate` of crates/server/src/config.rs.
-- + Server.Submit and Server.Cancel: the workorder handlers of crates/server/src/api.rs, from state
--   and request to answer and state. A handler is one step, as is the claim of a workorder by
--   the queue, though they take several locks in turn.
-- + Server.Queue: crates/server/src/queue.rs. `queue_turn` is one turn of `process_queue`;
--   `process_workorder` is the list of its effects (Effects, Process, Pipeline), which `run` applies
--   one after the other. Each effect holds a lock for itself, so other operations may come between.
-- + Server.Evict: `evict_workorders` of crates/server/src/state.rs.
-- + Server.System: the running server as a transition system. A step is a submission, a cancellation,
--   a turn of the queue, one effect of a workorder in process, or an eviction, in any order; `Reach`
--   is what can be reached from a server that starts with nothing saved.
-- + Server.Restart: the loading half of crates/server/src/persistence.rs and `AppState::new`.
-- + Upload.Frame: the binary chunk frames of crates/types/src/api.rs, `encode_with_payload` and
--   `decode`.
-- + Upload.ChunkPolicy: `SnapshotBlobChunkPolicy` of crates/cli/src/client.rs.
-- + Upload.Session: the staged uploads of crates/server/src/api.rs, `prepare_blob_upload_session`,
--   `append_blob_upload_chunk` and `finalize_blob_upload_session` on the files of the session
--   directory. Session.Staged reads these files as the list of the accepted chunks.
-- + Upload.Stream: `handle_blob_upload_ws` of crates/server/src/api.rs, from the first message of a
--   connection to its end.
-- + Storage.Blobs: crates/server/src/blob_store.rs and crates/types/src/compression.rs.
-- + Storage.Cleanup: `cleanup_snapshot_storage_at` of crates/server/src/runtime.rs.
-- + Version: splitting and comparing of versions in crates/cli/src/portage.rs. Version.Parts has
--   the parts as they are written and their order, without the code's parsing.
-- + Trace: `parse_trace_context` of crates/observability/src/lib.rs.
-- + Emerge: the command line of crates/worker/src/builder.rs.
--
-- The interplay: Submit uses Auth, Atom and Registry and fills the state that Queue takes from and
-- Cancel, Evict and Restart change. Server.Queue.Order has the theorems on a cancellation and the
-- queue together, and Server.System lets all of these interleave. Upload.Stream decodes frames
-- with Upload.Frame, stages their payloads with Upload.Session and stores the blob with
-- Storage.Blobs, whose records Storage.Cleanup goes through.
--
-- Numbers are natural; counters of `Metrics` wrap at 2^64. A UUID is the number that its 128 bits
-- spell, a DateTime counts ticks, a file is a list of bytes in a dictionary, and a broadcast
-- channel is its presence in its map, with all that was sent on any progress channel in one list.
-- Every function is total without fuel: each recursion is on a list, a text or a number of rounds
-- that the source computes.
--
-- From outside come, as arguments: SHA-256 and serde_json (Registry.Hashing), SHA-256 and zstd for
-- blobs (Storage.Blobs.Codec), header parsing (Auth), adler32 (Upload.Frame), the fresh id, the
-- time and the stored snapshots of a submission (Server.Submit.Arrival), what paths exist
-- (Server.Config), all answers of Docker and the file system to a build
-- (Server.Queue.Process.World), and the files read after a restart (Server.Restart.Saved).
--
-- Not modelled: the client's network and file code, the worker's set-up of Portage, the tree
-- store but for its clean-up, failing system calls, Docker, signing, reading configuration
-- files, sending traces, the Prometheus text, and the regular expressions that find events in a
-- build log. They are I/O or stand apart from the life of a workorder.
pub mod Prelude
pub mod Types
pub mod Registry
pub mod Repo
pub mod Auth
pub mod Atom
pub mod Server
pub mod Storage
pub mod Trace
pub mod Upload
pub mod Emerge
pub mod Version
