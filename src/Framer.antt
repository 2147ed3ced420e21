-- ===== src/Framer.antt =====
-- crates/core/src/framer: the framers, which cut frames off a buffer of bytes.
-- `poll_frame` returns its result beside what it leaves in the buffer.
pub mod Line
pub mod LengthPrefixed
pub mod Passthrough
pub mod Streaming
