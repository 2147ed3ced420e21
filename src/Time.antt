-- ===== src/Time.antt =====
-- crates/core/src/time: the table of the clocks of the nodes.
pub mod NodeClockTable
