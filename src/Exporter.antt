-- ===== src/Exporter.antt =====
-- The exporters of crates/core/src/exporter.
pub mod Pcapng
pub mod Rows
pub mod Timestamp
pub mod Text
