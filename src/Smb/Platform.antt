-- ===== src/Smb/Platform.antt =====
-- What the charger core is given: its transport and its clock (crates/core/src/transport.rs,
-- crates/core/src/clock.rs), over one state `W` of the world, which every call may move on.
use Prim.Native.String.{String}
use nabu_charger.Prelude.{ℕ, Result}
use nabu_charger.Smb.Error.{TransportError}

pub record ChargerTransport (W : Type 0) : Type 0 where
  pub read : ℕ → W → Result ℕ TransportError × W
  pub write : ℕ → ℕ → W → Result Unit TransportError × W
  pub reset : W → Result Unit TransportError × W
  pub name : W → String

pub record Clock (W : Type 0) : Type 0 where
  pub now_ms : W → ℕ × W
