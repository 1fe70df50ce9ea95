-- ===== src/Smb/Apsd.antt =====
-- The parse of the detection registers (crates/core/src/apsd.rs).
pub mod Eligible
use Prim.Native.String.{String}
use nabu_charger.Prelude.{ℕ, Bool, true, false, bit_and, ◌==◌, if◌then◌else◌, Result, ok, err}
use nabu_charger.Smb.Regs
use nabu_charger.Smb.Error.{
  ChargerError, detection_not_complete, unknown_adapter_pattern, adapter_check_timeout,
}
use nabu_charger.Smb.Adapter.{AdapterType, Qc35Support, is_authenticated}

abbrev pub adapter_label : AdapterType → String
adapter_label AdapterType.unknown = "UNKNOWN"
adapter_label AdapterType.sdp = "SDP"
adapter_label AdapterType.ocp = "OCP"
adapter_label AdapterType.cdp = "CDP"
adapter_label AdapterType.dcp = "DCP"
adapter_label AdapterType.float = "FLOAT"
adapter_label AdapterType.hvdcp2 = "HVDCP2"
adapter_label AdapterType.hvdcp3 = "HVDCP3"
adapter_label AdapterType.hvdcp3p5 = "HVDCP3P5"

abbrev adapter_rank : AdapterType → ℕ
adapter_rank AdapterType.unknown = 0
adapter_rank AdapterType.sdp = 1
adapter_rank AdapterType.ocp = 2
adapter_rank AdapterType.cdp = 3
adapter_rank AdapterType.dcp = 4
adapter_rank AdapterType.float = 5
adapter_rank AdapterType.hvdcp2 = 6
adapter_rank AdapterType.hvdcp3 = 7
adapter_rank AdapterType.hvdcp3p5 = 8

-- `==` on adapter types, as the derived `PartialEq` decides it.
abbrev pub adapter_eq : AdapterType → AdapterType → Bool
adapter_eq a b = adapter_rank a == adapter_rank b

abbrev pub is_hvdcp : AdapterType → Bool
is_hvdcp AdapterType.hvdcp2 = true
is_hvdcp AdapterType.hvdcp3 = true
is_hvdcp AdapterType.hvdcp3p5 = true
is_hvdcp a = false

abbrev pub apsd_pattern : AdapterType → ℕ
apsd_pattern AdapterType.unknown = 0
apsd_pattern AdapterType.sdp = Regs.pattern_sdp
apsd_pattern AdapterType.ocp = Regs.pattern_ocp
apsd_pattern AdapterType.cdp = Regs.pattern_cdp
apsd_pattern AdapterType.dcp = Regs.pattern_dcp
apsd_pattern AdapterType.float = Regs.pattern_float
apsd_pattern AdapterType.hvdcp2 = Regs.pattern_hvdcp2
apsd_pattern AdapterType.hvdcp3 = Regs.pattern_hvdcp3
apsd_pattern AdapterType.hvdcp3p5 = Regs.pattern_hvdcp3

unfoldable pub from_pattern : ℕ → Result AdapterType ChargerError
from_pattern raw =
    if raw == 0
    then ok AdapterType.unknown
    else if raw == Regs.pattern_sdp
    then ok AdapterType.sdp
    else if raw == Regs.pattern_ocp
    then ok AdapterType.ocp
    else if raw == Regs.pattern_cdp
    then ok AdapterType.cdp
    else if raw == Regs.pattern_dcp
    then ok AdapterType.dcp
    else if raw == Regs.pattern_float
    then ok AdapterType.float
    else if raw == Regs.pattern_hvdcp2
    then ok AdapterType.hvdcp2
    else if raw == Regs.pattern_hvdcp3
    then ok AdapterType.hvdcp3
    else err (unknown_adapter_pattern raw)

-- The base type under a set Quick Charge bit.
abbrev pub resolved_qc : Qc35Support → AdapterType → AdapterType
resolved_qc qc35 AdapterType.hvdcp3p5 = AdapterType.hvdcp3p5
resolved_qc qc35 AdapterType.hvdcp3 =
    if is_authenticated qc35 then AdapterType.hvdcp3p5 else AdapterType.hvdcp3
resolved_qc qc35 a = AdapterType.hvdcp2

abbrev pub refined :
    ℕ → Qc35Support → Result AdapterType ChargerError → Result AdapterType ChargerError
refined apsd_status qc35 (err e) = err e
refined apsd_status qc35 (ok base) =
    if bit_and apsd_status Regs.qc_charger == 0 then ok base else ok (resolved_qc qc35 base)

-- `AdapterType::decode`
unfoldable pub adapter_decode : ℕ → ℕ → Qc35Support → Result AdapterType ChargerError
adapter_decode apsd_status apsd_result qc35 =
    if bit_and apsd_status Regs.apsd_dtc_status_done == 0
    then err detection_not_complete
    else if bit_and apsd_status Regs.hvdcp_check_timeout == 0
    then refined apsd_status qc35 (from_pattern (bit_and apsd_result Regs.apsd_result_status_mask))
    else err (adapter_check_timeout apsd_status)
