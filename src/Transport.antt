-- ===== src/Transport.antt =====
-- The way of the samples from their source to the processing: the blocks, their pool, the bounded
-- queue and the ingest.
pub mod Block
pub mod Pool
pub mod Queue
pub mod Ingest
pub mod Bridge
mod Tests
mod BridgeTests
