-- ===== src/Server.antt =====
-- crates/server/src: what bounds and orders the traffic of the connections.
pub mod Hold
pub mod Mux
pub mod Coalesce
pub mod PanelPriority
pub mod ConnCounter
pub mod Ingest
pub mod Runner
pub mod Tofu
pub mod Annotations
pub mod Sources
pub mod Prefetch
pub mod Auth
