-- ===== src/Smb/Policy.antt =====
-- The input current policy (crates/core/src/policy.rs).
use Prim.Native.String.{String}
use nabu_charger.Prelude.{
  ℕ, Bool, true, false, Option, none, some, ltb, if◌then◌else◌, Result, ok, err,
}
use nabu_charger.Smb.Error.{ChargerError, current_out_of_range}
use nabu_charger.Smb.Adapter.{AdapterType, Qc35Support, is_authenticated}

abbrev pub min_icl_ua : ℕ
min_icl_ua = 100_000

abbrev pub max_icl_ua : ℕ
max_icl_ua = 4_500_000

abbrev pub icl_sdp_ua : ℕ
icl_sdp_ua = 500_000

abbrev pub icl_dcp_ua : ℕ
icl_dcp_ua = 1_500_000

abbrev pub icl_cdp_ua : ℕ
icl_cdp_ua = 1_500_000

abbrev pub icl_hvdcp2_ua : ℕ
icl_hvdcp2_ua = 1_500_000

abbrev pub icl_hvdcp3_ua : ℕ
icl_hvdcp3_ua = 3_000_000

abbrev pub icl_hvdcp3p5_smb_ua : ℕ
icl_hvdcp3p5_smb_ua = 3_000_000

pub data Qc2Voltage : Type 0 where
  v5 v9 v12 : Qc2Voltage

abbrev pub qc2_raw : Qc2Voltage → ℕ
qc2_raw Qc2Voltage.v5 = 0x00
qc2_raw Qc2Voltage.v9 = 0x40
qc2_raw Qc2Voltage.v12 = 0x80

abbrev pub qc2_label : Qc2Voltage → String
qc2_label Qc2Voltage.v5 = "5V"
qc2_label Qc2Voltage.v9 = "9V"
qc2_label Qc2Voltage.v12 = "12V"

pub record ChargePolicy : Type 0 where
  pub icl_ua : ℕ
  pub qc2_voltage : Option Qc2Voltage
  pub pump_eligible : Bool
  pub rationale : String

abbrev pub at_5v : ℕ → String → ChargePolicy
at_5v icl_ua rationale = record {
  icl_ua = icl_ua;
  qc2_voltage = none;
  pump_eligible = false;
  rationale = rationale;
}

abbrev pub at_9v : ℕ → Bool → String → ChargePolicy
at_9v icl_ua pump_eligible rationale = record {
  icl_ua = icl_ua;
  qc2_voltage = some Qc2Voltage.v9;
  pump_eligible = pump_eligible;
  rationale = rationale;
}

abbrev unidentified : ChargePolicy
unidentified = at_5v min_icl_ua "source not identified, minimum safe current"

abbrev pub policy_for : AdapterType → Qc35Support → ChargePolicy
policy_for AdapterType.sdp qc35 = at_5v icl_sdp_ua "standard USB port, 500 mA limit"
policy_for AdapterType.cdp qc35 = at_5v icl_cdp_ua "charging port with data, BC1.2 1.5 A"
policy_for AdapterType.dcp qc35 = at_5v icl_dcp_ua "charging-only port, BC1.2 1.5 A"
policy_for AdapterType.ocp qc35 = unidentified
policy_for AdapterType.float qc35 = unidentified
policy_for AdapterType.unknown qc35 = unidentified
policy_for AdapterType.hvdcp2 qc35 = at_9v icl_hvdcp2_ua false "Quick Charge 2.0, 9 V and 1.5 A"
policy_for AdapterType.hvdcp3 qc35 =
    at_9v icl_hvdcp3_ua true "Quick Charge 3.0, 9 V and 3 A, charge pump possible"
policy_for AdapterType.hvdcp3p5 qc35 =
    at_9v icl_hvdcp3p5_smb_ua (is_authenticated qc35)
      "Quick Charge 3.5, the tablet's own power brick"

unfoldable pub clamp_icl : ℕ → ℕ → Result ℕ ChargerError
clamp_icl icl_ua max_ua =
    if ltb icl_ua min_icl_ua
    then err (current_out_of_range icl_ua max_ua)
    else if ltb max_ua icl_ua
    then err (current_out_of_range icl_ua max_ua)
    else ok icl_ua
