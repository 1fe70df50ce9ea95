-- ===== src/Smb/Error.antt =====
-- The errors of the charger core (crates/core/src/error.rs).
use Prim.Native.String.{String}
use nabu_charger.Prelude.{ℕ, Bool, true, false, ℤ, pos}

pub data TransportErrorKind : Type 0 where
  io timeout disconnected protocol unsupported : TransportErrorKind

pub record TransportError : Type 0 where
  pub kind : TransportErrorKind
  pub code : ℤ
  pub detail : String

pub data ChargerError : Type 0 where
  transport : TransportError → ChargerError
  not_open already_open detection_not_complete : ChargerError
  detection_timeout : (waited_ms : ℕ) → ChargerError
  unknown_adapter_pattern : (raw : ℕ) → ChargerError
  adapter_check_timeout : (raw_status : ℕ) → ChargerError
  current_out_of_range : (requested_ua max_ua : ℕ) → ChargerError
  verify_failed : (addr wrote read : ℕ) → ChargerError
  device_fault : (status : ℕ) → ChargerError

-- `TransportErrorKind::as_str`
abbrev pub kind_name : TransportErrorKind → String
kind_name io = "io"
kind_name timeout = "timeout"
kind_name disconnected = "disconnected"
kind_name protocol = "protocol"
kind_name unsupported = "unsupported"

-- `TransportError::disconnected`
abbrev pub disconnected_error : String → TransportError
disconnected_error detail = record { kind = disconnected; code = pos 0; detail = detail }

-- `ChargerError::code`
abbrev pub error_code : ChargerError → String
error_code (transport e) = "transport"
error_code not_open = "not_open"
error_code already_open = "already_open"
error_code detection_not_complete = "detection_not_complete"
error_code (detection_timeout waited_ms) = "detection_timeout"
error_code (unknown_adapter_pattern raw) = "unknown_adapter_pattern"
error_code (adapter_check_timeout raw_status) = "adapter_check_timeout"
error_code (current_out_of_range requested_ua max_ua) = "current_out_of_range"
error_code (verify_failed addr wrote got) = "verify_failed"
error_code (device_fault status) = "device_fault"

-- `recoverable` of crates/core/src/driver.rs: whether a reset of the link may help.
abbrev pub kind_recoverable : TransportErrorKind → Bool
kind_recoverable timeout = true
kind_recoverable disconnected = true
kind_recoverable io = true
kind_recoverable protocol = false
kind_recoverable unsupported = false
