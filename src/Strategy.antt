-- ===== src/Strategy.antt =====
-- crates/strategy: order tracking, positions, exposure and queue estimation.
pub mod OrderTracker
pub mod Position
pub mod Exposure
pub mod F64
pub mod QueueEstimator
