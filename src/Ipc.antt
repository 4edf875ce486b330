-- ===== src/Ipc.antt =====
-- The daemon's side of crates/fuse-promise-ipc/src/lib.rs: messages, the shared state, and the
-- requests of one connection.
pub mod Message
pub mod State
pub mod Report
pub mod Session
pub mod Guards
pub mod Delivery
pub mod Disconnect
pub mod Commits
pub mod Route
pub mod Started
pub mod Waiting
pub mod Steps
pub mod Routed
pub mod Growing
pub mod Quiet
pub mod Unanswered
pub mod Answered
pub mod Resolve
pub mod Resolved
pub mod Frames
pub mod Framing
