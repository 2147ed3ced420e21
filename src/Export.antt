-- ===== src/Export.antt =====
-- What crates/server/src/export_api.rs keeps and makes: the download tickets, the archive of a bundle
-- and the names of its entries. The jobs and requests around them are not modelled.
pub mod Tickets
pub mod Zip
pub mod Names
