-- ===== src/Session.antt =====
-- crates/core/src/session: the ring of a session's frames and the registry of the sessions.
pub mod Ring
pub mod Registry
