-- ===== src/Pipeline.antt =====
-- crates/polymarket with crates/market-state: the events that the decoder writes, given to the engine.
pub mod Snapshot
mod Tests
