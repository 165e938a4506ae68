-- ===== src/Fs.antt =====
-- diffuzzer/src/abstract_fs/fs.rs: the abstract file system, part by part.
pub mod State
pub mod Resolve
pub mod Ops
pub mod Replay
pub mod Recording
pub mod Recorded
pub mod Valid
pub mod Resolved
pub mod Safe
pub mod Keeps
pub mod Linking
pub mod Descriptors
pub mod Writing
pub mod Steps
pub mod Unlinked
pub mod Alive
pub mod Unrecorded
pub mod View
pub mod Yields
pub mod Still
pub mod Linked
pub mod Renamed
pub mod Refined
