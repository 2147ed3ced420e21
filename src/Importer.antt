-- ===== src/Importer.antt =====
-- The importers of crates/core/src/importer; that of tables is Csv/Import.
pub mod Pcapng
