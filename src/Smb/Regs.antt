-- ===== src/Smb/Regs.antt =====
-- The bits of adapter detection (crates/core/src/regs.rs).
use nabu_charger.Prelude.{ℕ, bit_or}

abbrev pub apsd_dtc_status_done : ℕ
apsd_dtc_status_done = 0x01

abbrev pub qc_charger : ℕ
qc_charger = 0x02

abbrev pub hvdcp_check_timeout : ℕ
hvdcp_check_timeout = 0x40

abbrev pub apsd_result_status_mask : ℕ
apsd_result_status_mask = 0x7f

abbrev pub pattern_sdp : ℕ
pattern_sdp = 0x01

abbrev pub pattern_ocp : ℕ
pattern_ocp = 0x02

abbrev pub pattern_cdp : ℕ
pattern_cdp = 0x04

abbrev pub pattern_dcp : ℕ
pattern_dcp = 0x08

abbrev pub pattern_float : ℕ
pattern_float = 0x10

abbrev pub pattern_qc_2p0 : ℕ
pattern_qc_2p0 = 0x20

abbrev pub pattern_qc_3p0 : ℕ
pattern_qc_3p0 = 0x40

abbrev pub pattern_hvdcp2 : ℕ
pattern_hvdcp2 = bit_or pattern_dcp pattern_qc_2p0

abbrev pub pattern_hvdcp3 : ℕ
pattern_hvdcp3 = bit_or pattern_dcp pattern_qc_3p0

abbrev pub apsd_status : ℕ
apsd_status = 0x1307

abbrev pub apsd_result_status : ℕ
apsd_result_status = 0x1308

abbrev pub cmd_apsd : ℕ
cmd_apsd = 0x1341

abbrev pub apsd_rerun : ℕ
apsd_rerun = 0x01

abbrev pub cmd_icl_override : ℕ
cmd_icl_override = 0x1342

abbrev pub icl_override : ℕ
icl_override = 0x01

abbrev pub icl_override_after_apsd : ℕ
icl_override_after_apsd = 0x10

abbrev pub hvdcp_pulse_count_max : ℕ
hvdcp_pulse_count_max = 0x135b

abbrev pub qc2_voltage_mask : ℕ
qc2_voltage_mask = 0xc0

abbrev pub usbin_current_limit_cfg : ℕ
usbin_current_limit_cfg = 0x1370
