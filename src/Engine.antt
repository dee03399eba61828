-- ===== src/Engine.antt =====
-- `ProcessingEngine` of src/pipeline/processing_engine.cpp, which takes the blocks from their queue
-- and gives each of them to the aggregators.
pub mod Accounting
pub mod Stages
pub mod FanOut
pub mod Tests
