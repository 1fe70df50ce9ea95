-- ===== src/Smb.antt =====
-- The core of the charger in the PMIC, crates/core.
pub mod Regs
pub mod Error
pub mod Adapter
pub mod Apsd
pub mod Policy
pub mod Icl
pub mod Journal
pub mod Platform
pub mod Charger
pub mod Runner
