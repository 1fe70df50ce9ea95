-- ===== src/Ln8000/Error.antt =====
-- The typed errors of the pump core (crates/ln8000/src/error.rs).
use Prim.Native.String.{String}
use nabu_charger.Prelude.{ℕ, Bool, true, false, ℤ}

pub data BusErrorKind : Type 0 where
  io timeout disconnected protocol unsupported : BusErrorKind

pub record BusError : Type 0 where
  pub kind : BusErrorKind
  pub code : ℤ
  pub detail : String

pub data PumpError : Type 0 where
  bus : BusError → PumpError
  not_open : PumpError
  wrong_device_id : ℕ → PumpError
  mode_not_reached : ℕ → ℕ → PumpError
  bypass_needs_five_volt_vin : ℤ → PumpError
  fault : ℕ → String → PumpError
  out_of_range : String → ℕ → PumpError
  watchdog_expired : PumpError

-- The kinds after which a bus reset and a retry are worth trying: the match of `is_recoverable`
-- on the bus case, and `bus_recoverable` of the driver.
abbrev pub kind_recoverable : BusErrorKind → Bool
kind_recoverable BusErrorKind.io = true
kind_recoverable BusErrorKind.timeout = true
kind_recoverable BusErrorKind.disconnected = true
kind_recoverable BusErrorKind.protocol = false
kind_recoverable BusErrorKind.unsupported = false

abbrev pub bus_recoverable : BusError → Bool
bus_recoverable e = kind_recoverable e.kind

-- `PumpError::is_recoverable`
unfoldable pub is_recoverable : PumpError → Bool
is_recoverable (PumpError.bus e) = kind_recoverable e.kind
is_recoverable (PumpError.mode_not_reached wanted raw) = true
is_recoverable _ = false
