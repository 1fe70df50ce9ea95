-- ===== src/Ln8000/Hvdcp.antt =====
-- The cold-plug, retry and elevation policy of the high-voltage adapters
-- (crates/ln8000/src/hvdcp_policy.rs).
pub mod Elevation
use nabu_charger.Prelude.{
  ℕ, Bool, true, false, ◌&&◌, ◌||◌, not, bit_and, bit_or, ◌==◌, ltb, leb, if◌then◌else◌, sat_add, ℤ,
  pos, neg, negsuc, pos_part, neg_part, ltb_ℤ, leb_ℤ,
}
use nabu_charger.Ln8000.Mode.{has_bits}

abbrev pub hvdcp_superuser_retry_max : ℕ
hvdcp_superuser_retry_max = 30

abbrev pub vin_unplug_max_uv : ℕ
vin_unplug_max_uv = 1_000_000

abbrev pub hvdcp_err_usbin_unavailable : ℤ
hvdcp_err_usbin_unavailable = neg 10

abbrev pub hvdcp_phase_idle : ℕ
hvdcp_phase_idle = 0

abbrev pub hvdcp_phase_done : ℕ
hvdcp_phase_done = 6

abbrev pub hvdcp_phase_failed : ℕ
hvdcp_phase_failed = 7

abbrev pub hvdcp_phase_five_v_bypass : ℕ
hvdcp_phase_five_v_bypass = 9

abbrev pub eq_ℤ : ℤ → ℤ → Bool
eq_ℤ a b = pos_part a == pos_part b && neg_part a == neg_part b

unfoldable pub should_schedule_superuser_retry : ℤ → Bool
should_schedule_superuser_retry negotiate_rc = eq_ℤ negotiate_rc hvdcp_err_usbin_unavailable

unfoldable pub superuser_retry_due : Bool → ℕ → ℕ → ℕ → Bool
superuser_retry_due pending attempts now_ms next_ms =
    pending && (ltb attempts hvdcp_superuser_retry_max && leb next_ms now_ms)

unfoldable pub should_renegotiate_on_input_edge : ℕ → Bool → Bool → Bool
should_renegotiate_on_input_edge phase was_input_present now_input_present =
    if was_input_present || not now_input_present
    then false
    else phase == hvdcp_phase_idle
      || (phase == hvdcp_phase_failed
          || (phase == hvdcp_phase_done || phase == hvdcp_phase_five_v_bypass))

unfoldable pub input_present_from_vin : ℤ → Bool
input_present_from_vin vin_uv = ltb_ℤ (pos vin_unplug_max_uv) vin_uv

abbrev pub force9v_rise_uv : ℕ
force9v_rise_uv = 5_600_000

abbrev pub force9v_settle_ms : ℕ
force9v_settle_ms = 1_600

abbrev pub force9v_extend_ms : ℕ
force9v_extend_ms = 2_400

abbrev pub force9v_hard_cap_ms : ℕ
force9v_hard_cap_ms = 5_000

pub data Force9vWait : Type 0 where
  continue extend stop : Force9vWait

unfoldable pub force9v_step : ℤ → ℕ → ℕ → Bool → ℕ → Force9vWait
force9v_step vin_uv waited_ms deadline_ms extended switching_min_uv =
    if leb_ℤ (pos switching_min_uv) vin_uv || leb deadline_ms waited_ms
    then Force9vWait.stop
    else if not extended && leb_ℤ (pos force9v_rise_uv) vin_uv
    then Force9vWait.extend
    else Force9vWait.continue

unfoldable pub force9v_extended_deadline : ℕ → ℕ
force9v_extended_deadline deadline_ms =
    if ltb force9v_hard_cap_ms (sat_add deadline_ms force9v_extend_ms)
    then force9v_hard_cap_ms
    else sat_add deadline_ms force9v_extend_ms

abbrev pub apsd_bit_dcp : ℕ
apsd_bit_dcp = 0x8

abbrev pub apsd_bit_qc2 : ℕ
apsd_bit_qc2 = 0x20

abbrev pub apsd_bit_qc3 : ℕ
apsd_bit_qc3 = 0x40

abbrev pub apsd_stat_bit_qc_charger : ℕ
apsd_stat_bit_qc_charger = 0x2

pub promote_qc_charger : ℕ → ℕ → ℕ
promote_qc_charger result apsd_status =
    if has_bits apsd_status apsd_stat_bit_qc_charger && not (has_bits result apsd_bit_qc3)
    then bit_or (bit_or result apsd_bit_dcp) apsd_bit_qc2
    else result

pub data ApsdElevate : Type 0 where
  qc3_pulse force9v reject : ApsdElevate

pub apsd_elevate_path : ℕ → Bool → ApsdElevate
apsd_elevate_path result qc3_continuous =
    if has_bits result apsd_bit_qc3 || qc3_continuous
    then ApsdElevate.qc3_pulse
    else if has_bits result apsd_bit_qc2 || has_bits result apsd_bit_dcp
    then ApsdElevate.force9v
    else ApsdElevate.reject
