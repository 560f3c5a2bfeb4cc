-- ===== src/MarketState.antt =====
-- crates/market-state: order books per instrument and the engine that drives them.
pub mod Book
pub mod ArrayBook
pub mod State
pub mod Engine
