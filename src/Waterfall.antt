-- ===== src/Waterfall.antt =====
-- The rows of the waterfall: how samples become rows, and the queue of the rows.
pub mod Bins
pub mod Rows
pub mod RowQueue
mod Tests
