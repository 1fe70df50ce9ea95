-- ===== src/Kmdf.antt =====
-- The Windows driver around the core, crates/ln8000-kmdf.
pub mod Force9v
pub mod Battery
pub mod Hvdcp
pub mod Renegotiate
pub mod Guarding
