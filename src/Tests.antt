-- ===== src/Tests.antt =====
-- Every property at a concrete input.
pub mod Policies
pub mod Holds
pub mod Guarding
pub mod Hvdcp
pub mod Renegotiate
pub mod Battery
pub mod Spb
pub mod Chip
pub mod Access
pub mod Adapters
pub mod Charger
