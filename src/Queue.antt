-- ===== src/Queue.antt =====
-- crates/queue and crates/core: the single-producer single-consumer ring.
pub mod Index
pub mod Instr
pub mod Ring
pub mod CopyRing
