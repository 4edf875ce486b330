-- ===== src/Materialize.antt =====
-- The materialization of promised files, crates/fuse-promise-ipc/src/lib.rs: from
-- `handle_materialize` to `apply_mtime`.
pub mod Files
pub mod Data
pub mod Monad
pub mod Names
pub mod Targets
pub mod Plan
pub mod Chunks
pub mod Output
pub mod Copy
pub mod Run
pub mod Cleanup
pub mod Termination
pub mod Free
pub mod Keeping
pub mod Kept
pub mod Fetched
pub mod Copied
pub mod Planned
pub mod Working
pub mod Careful
pub mod Totals
