-- ===== src/Kmdf/Hvdcp/Band.antt =====
-- The bus voltage that the negotiation aims at, and the small pure helpers of
-- crates/ln8000-kmdf/src/hvdcp.rs.
pub mod Target
use nabu_charger.Prelude.{
  ℕ, ◌+◌, ◌-◌, ◌/◌, Bool, not, ◌&&◌, ◌||◌, ◌==◌, ltb, leb, if◌then◌else◌, min, sat_add, sat_mul,
  bit_and, bit_or, ℤ, pos, ltb_ℤ,
}
use nabu_charger.Ln8000.Window
use nabu_charger.Kmdf.Hvdcp.Regs.{
  pump_vin_target_min_uv, pump_vin_target_abs_min_uv, pump_vin_target_ceil_uv, pump_vin_trim_uv,
  micro_5v_uv, qc3_step_uv, max_pulse_cnt, hvdcp_pulse_count_max_qc2_9v,
  usbin_adapter_allow_5v_to_12v, bit_qc_9v, bit_qc_5v_to_9v_reason, five_v_stay_max_uv,
}

-- `if target > ceiling { ceiling } else { target }` after the lower bound.
abbrev pub bounded_target : ℕ → ℕ
bounded_target target =
    if ltb pump_vin_target_ceil_uv target then pump_vin_target_ceil_uv else target

unfoldable pub target_vbus_uv : ℕ → ℕ
target_vbus_uv vbat_uv =
    if vbat_uv == 0
    then pump_vin_target_min_uv
    else let target = Window.window_target_uv vbat_uv in
      bounded_target
        (if ltb target pump_vin_target_abs_min_uv then pump_vin_target_abs_min_uv else target)

unfoldable pub trim_target_uv : ℕ → ℕ
trim_target_uv vbat_uv =
    if vbat_uv == 0
    then pump_vin_target_min_uv
    else let top = Window.window_top_uv vbat_uv in
      if ltb pump_vin_trim_uv top then pump_vin_trim_uv else top

unfoldable pub window_floor_uv : ℕ → ℕ
window_floor_uv vbat_uv =
    if vbat_uv == 0
    then pump_vin_target_min_uv
    else let floor = Window.window_floor_uv vbat_uv in
      if ltb floor pump_vin_target_abs_min_uv then pump_vin_target_abs_min_uv else floor

unfoldable pub estimated_vbus_uv : ℕ → ℕ
estimated_vbus_uv pulse_cnt = sat_add micro_5v_uv (sat_mul qc3_step_uv pulse_cnt)

-- `u32::div_ceil`
abbrev div_ceil : ℕ → ℕ → ℕ
div_ceil a b = (a + (b - 1)) / b

unfoldable pub pulses_toward_target : ℕ → ℕ
pulses_toward_target vbat_uv =
    let target = target_vbus_uv vbat_uv in
    if leb target micro_5v_uv
    then 0
    else min (div_ceil (target - micro_5v_uv) qc3_step_uv) max_pulse_cnt

abbrev pub with_qc2_max_9v : ℕ → ℕ
with_qc2_max_9v pulse_max_reg = bit_or (bit_and pulse_max_reg 0x3f) hvdcp_pulse_count_max_qc2_9v

abbrev pub with_adapter_allow_5v_to_12v : ℕ → ℕ
with_adapter_allow_5v_to_12v allow_reg =
    bit_or (bit_and allow_reg 0xf0) usbin_adapter_allow_5v_to_12v

pub qc_status_indicates_9v : ℕ → Bool
qc_status_indicates_9v qc_change =
    not (bit_and qc_change bit_qc_9v == 0) || not (bit_and qc_change bit_qc_5v_to_9v_reason == 0)

pub vin_stayed_near_5v : ℤ → Bool
vin_stayed_near_5v vin_uv = ltb_ℤ (pos 0) vin_uv && ltb_ℤ vin_uv (pos five_v_stay_max_uv)
