-- ===== src/Platform.antt =====
-- crates/platform: the arithmetic on several limbs.
pub mod Limbs
