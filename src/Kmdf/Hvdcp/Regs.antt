-- ===== src/Kmdf/Hvdcp/Regs.antt =====
-- The registers, bits, current codes, voltages and times of crates/ln8000-kmdf/src/hvdcp.rs.
use nabu_charger.Prelude.{ℕ}

abbrev pub reg_apsd_status : ℕ
reg_apsd_status = 0x1307

abbrev pub reg_apsd_result : ℕ
reg_apsd_result = 0x1308

abbrev pub reg_qc_change_status : ℕ
reg_qc_change_status = 0x1309

abbrev pub reg_qc_pulse_count : ℕ
reg_qc_pulse_count = 0x130a

abbrev pub reg_int_latched_clr : ℕ
reg_int_latched_clr = 0x1314

abbrev pub reg_usbin_cmd_il : ℕ
reg_usbin_cmd_il = 0x1340

abbrev pub reg_cmd_apsd : ℕ
reg_cmd_apsd = 0x1341

abbrev pub reg_cmd_icl_override : ℕ
reg_cmd_icl_override = 0x1342

abbrev pub reg_cmd_hvdcp_2 : ℕ
reg_cmd_hvdcp_2 = 0x1343

abbrev pub reg_type_c_cfg : ℕ
reg_type_c_cfg = 0x1358

abbrev pub reg_hvdcp_pulse_count_max : ℕ
reg_hvdcp_pulse_count_max = 0x135b

abbrev pub reg_usbin_adapter_allow : ℕ
reg_usbin_adapter_allow = 0x1360

abbrev pub reg_usbin_options_1 : ℕ
reg_usbin_options_1 = 0x1362

abbrev pub reg_usbin_icl_cfg : ℕ
reg_usbin_icl_cfg = 0x1370

abbrev pub bit_hvdcp_en : ℕ
bit_hvdcp_en = 0x04

abbrev pub bit_bc1p2_src_detect : ℕ
bit_bc1p2_src_detect = 0x08

abbrev pub bit_hvdcp_autonomous : ℕ
bit_hvdcp_autonomous = 0x20

abbrev pub bit_hvdcp_auth_alg_en : ℕ
bit_hvdcp_auth_alg_en = 0x40

abbrev pub bit_bc1p2_start_on_cc : ℕ
bit_bc1p2_start_on_cc = 0x80

abbrev pub bit_usbin_suspend : ℕ
bit_usbin_suspend = 0x01

abbrev pub bit_icl_override : ℕ
bit_icl_override = 0x01

abbrev pub bit_apsd_rerun : ℕ
bit_apsd_rerun = 0x01

abbrev pub bit_apsd_done : ℕ
bit_apsd_done = 0x01

abbrev pub bit_qc_charger : ℕ
bit_qc_charger = 0x02

abbrev pub bit_dcp : ℕ
bit_dcp = 0x08

abbrev pub bit_qc2 : ℕ
bit_qc2 = 0x20

abbrev pub bit_qc3 : ℕ
bit_qc3 = 0x40

abbrev pub bit_single_inc : ℕ
bit_single_inc = 0x01

abbrev pub bit_single_dec : ℕ
bit_single_dec = 0x02

abbrev pub bit_force_5v : ℕ
bit_force_5v = 0x08

abbrev pub bit_force_9v : ℕ
bit_force_9v = 0x10

abbrev pub mask_hvdcp_pulse_count_max_qc2 : ℕ
mask_hvdcp_pulse_count_max_qc2 = 0xc0

abbrev pub hvdcp_pulse_count_max_qc2_9v : ℕ
hvdcp_pulse_count_max_qc2_9v = 0x40

abbrev pub mask_usbin_adapter_allow : ℕ
mask_usbin_adapter_allow = 0x0f

abbrev pub usbin_adapter_allow_5v_to_12v : ℕ
usbin_adapter_allow_5v_to_12v = 0x0c

abbrev pub bit_qc_9v : ℕ
bit_qc_9v = 0x02

abbrev pub bit_qc_continuous : ℕ
bit_qc_continuous = 0x08

abbrev pub bit_qc_5v_to_9v_reason : ℕ
bit_qc_5v_to_9v_reason = 0x10

abbrev pub icl_raw_500ma : ℕ
icl_raw_500ma = 10

abbrev pub icl_raw_pump_3a : ℕ
icl_raw_pump_3a = 60

abbrev pub icl_raw_5v_2p7a : ℕ
icl_raw_5v_2p7a = 54

abbrev pub icl_raw_dcp_2a : ℕ
icl_raw_dcp_2a = 40

abbrev pub icl_raw_hvdcp2_1p5a : ℕ
icl_raw_hvdcp2_1p5a = 30

abbrev pub qc_status_settle_ms : ℕ
qc_status_settle_ms = 200

abbrev pub qc3_step_uv : ℕ
qc3_step_uv = 200_000

abbrev pub micro_5v_uv : ℕ
micro_5v_uv = 5_000_000

abbrev pub max_pulse_cnt : ℕ
max_pulse_cnt = 23

abbrev pub pump_vin_trim_uv : ℕ
pump_vin_trim_uv = 10_500_000

abbrev pub pump_vin_target_min_uv : ℕ
pump_vin_target_min_uv = 9_500_000

abbrev pub pump_vin_target_abs_min_uv : ℕ
pump_vin_target_abs_min_uv = 6_000_000

abbrev pub pump_vin_target_ceil_uv : ℕ
pump_vin_target_ceil_uv = 9_600_000

abbrev pub max_trim_dec : ℕ
max_trim_dec = 20

abbrev pub max_boost_inc : ℕ
max_boost_inc = 23

abbrev pub pulse_gap_ms : ℕ
pulse_gap_ms = 40

abbrev pub apsd_wait_ms : ℕ
apsd_wait_ms = 2_000

abbrev pub apsd_poll_ms : ℕ
apsd_poll_ms = 200

abbrev pub enable_settle_ms : ℕ
enable_settle_ms = 50

abbrev pub five_v_stay_max_uv : ℕ
five_v_stay_max_uv = 6_000_000
