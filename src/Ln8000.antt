-- ===== src/Ln8000.antt =====
-- The charge-pump core, crates/ln8000.
pub mod Regs
pub mod Error
pub mod Mode
pub mod Window
pub mod Codes
pub mod Status
pub mod Battery
pub mod Hvdcp
pub mod Qc35
pub mod Session
pub mod Guard
pub mod Bus
pub mod Config
pub mod Pump
