-- ===== src/Spectrum.antt =====
-- The spectrum aggregator, src/pipeline/spectrum_aggregator.{h,cpp}.
pub mod Window
pub mod Bins
pub mod Bands
pub mod Consume
mod Tests
mod BinTests
mod ConsumeTests
