-- ===== src/Smb/Adapter.antt =====
-- The adapter types (crates/core/src/apsd.rs) and what the platform knows of Quick Charge 3.5
-- (crates/core/src/policy.rs).
use nabu_charger.Prelude.{Bool, false}

pub data AdapterType : Type 0 where
  unknown sdp ocp cdp dcp float hvdcp2 hvdcp3 hvdcp3p5 : AdapterType

pub data Qc35Support : Type 0 where
  unsupported : Qc35Support
  supported : (authenticated : Bool) → Qc35Support

-- `matches!(qc35, Supported { authenticated: true })`
abbrev pub is_authenticated : Qc35Support → Bool
is_authenticated unsupported = false
is_authenticated (supported authenticated) = authenticated
