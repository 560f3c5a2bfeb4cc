-- ===== src/Transport.antt =====
-- crates/transport: the threads that feed the engine.
pub mod Timer
pub mod Feed
