-- ===== src/Log.antt =====
-- crates/core/src/log: the write-ahead log and its group commit, and the files of a session's directory.
pub mod File
pub mod Wal
pub mod GroupCommit
pub mod Rotate
pub mod Retention
pub mod Raw
pub mod BufWriter
pub mod Index
pub mod Lines
pub mod Session
pub mod Sinks
