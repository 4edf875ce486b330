-- ===== src/Lib.antt =====
-- fuse-promise: a daemon that shows promised files in a FUSE mount before their bytes exist, and asks
-- the provider of a promise for them when they are read.
--
-- The parts of the program, and the modules that model them:
--
-- crates/fuse-promise-runtime/src/lib.rs
--   Status        `Status`, `Result`
--   Path          `normalize_relative_path`, `parent_path`, `leaf_name`, `child_path`
--   Cache         `ReadCache` (Cache/Store), `CachedFile` (Cache/File), `CachedChunk` (Cache/Chunk)
--   Node          the data: nodes, trees, providers, read plans, cache policies;
--                 Node/Subtree the walk of a subtree
--   Builder       `PromiseBuilder`
--   Runtime       `Runtime`: its state and the operations on providers and promises;
--                 Runtime/Lookup the lookups, Runtime/Reads the read plans, Runtime/Caching the
--                 recording of reads
--   RuntimeDir    the runtime directory and the mount directory; RuntimeDir/Prepared what the
--                 preparation of the mount directory asks for
--
-- crates/fuse-promise-ipc/src/lib.rs
--   Ipc/Message   requests, responses and their validation
--   Ipc/State     `IpcState`: provider routes and pending reads
--   Ipc/Report    the status and inspect reports
--   Ipc/Session   the requests of one connection, from `Hello` to the cleanup
--   Ipc/Route     `route_provider_read` with its wait, and the steps of other connections
--   Ipc/Resolve   `resolve_visible_path`
--   Ipc/Frames    `read_frame` and `write_frame`
--   Materialize   `handle_materialize`: Materialize/Files what it asks of the file system,
--                 Materialize/Data its records, Materialize/Monad its steps, Materialize/Names the
--                 names it gives, Materialize/Targets the targets and the cleanup, Materialize/Plan
--                 the plan, Materialize/Chunks the reads, Materialize/Output the files written,
--                 Materialize/Copy the copy loop, Materialize/Run the whole operation
--
-- crates/fuse-promise-daemon/src/fuse_adapter.rs
--   Fuse          the FUSE handlers: read plans, replies, directory entries
--
-- How they interact: a provider's connection registers a provider and commits a promise (Ipc/Session),
-- whose nodes a builder checks (Builder) and the runtime stores (Runtime). A read of the mount (Fuse)
-- becomes a plan of the runtime (Runtime/Reads): bytes of the cache, or a request that waits in the
-- IPC state (Ipc/State) until the provider's connection answers it. The answer is recorded in the
-- cache (Runtime/Caching) and cut to what the reader asked for (Fuse). A materialization (Materialize)
-- walks a subtree of a promise, reads its files through the same routes and writes them into a directory
-- of the client, which confirms each report of progress or cancels.
--
-- Conventions: a text is the list of its bytes; machine integers are the native natural numbers with
-- `checked_add`, `wrapping_add` and `saturating_add` written out (Base/Words); a `BTreeMap` is a sorted
-- association list (Base/Maps); a method on `&mut self` is a function that returns the new state too;
-- a panic of `copy_from_slice` is a `none`. The loops of the cache run on fuel, one step for each byte
-- of the range, and the round trip shows that this suffices. The copy loop of a file has a unit of fuel
-- for each byte, which suffices since each round writes at least one. The walk of a subtree has one for
-- each level that a path can have: a child's path is longer than its directory's. All else is structural
-- recursion. What other connections do while a read waits is a list of steps (Ipc/Route); the ids of
-- reads come from a counter, so that a waiting read's id is not used again.
--
-- Not modelled: mutexes (each method is one step of the state; `route_provider_read` and the FUSE
-- `read` are split where they wait, so that other connections may come between), the sockets, the
-- client's side of the protocol and the `bincode` library (a codec is a parameter of Ipc/Frames), the
-- text encodings, the calls of the `fuser` library, the C bindings and the daemon's start. What the file
-- system and the random generator answer is an argument; materialization takes the file system as a
-- record of calls (Materialize/Files), and so does the preparation of the mount directory (RuntimeDir).
-- What other processes do to the files between two calls is left out. The laws that the statements take
-- of the file system speak of directory entries, not of what paths lead to: a change of permissions may
-- hide a file from its paths. Ipc/Session takes the handler of materialization as an argument.
pub mod Base
pub mod Status
pub mod Path
pub mod Cache
pub mod Node
pub mod Builder
pub mod RuntimeDir
pub mod Runtime
pub mod Ipc
pub mod Materialize
pub mod Fuse
mod Examples
