-- ===== src/Ln8000/Status.antt =====
-- The ADC channels and the status snapshot of the pump (crates/ln8000/src/status.rs).
pub mod Adc
pub mod Faults
use Prim.Native.String.{String}
use nabu_charger.Prelude.{
  ℕ, ◌+◌, ◌*◌, ◌/◌, Bool, false, ◌&&◌, ◌||◌, not, bit_and, bit_or, min, ℤ, pos, negsuc, sub_ℕ, neg,
  scale, quot, clamp_ℤ, u8_max, if◌then◌else◌,
}
use nabu_charger.Ln8000.Regs
use nabu_charger.Ln8000.Mode.{OpMode, has_bits}

pub data AdcChannel : Type 0 where
  vout vin vbat vac iin die_temp ts_bat ts_bus : AdcChannel

abbrev pub register_offset : AdcChannel → ℕ
register_offset AdcChannel.iin = 0
register_offset AdcChannel.vac = 1
register_offset AdcChannel.vin = 2
register_offset AdcChannel.vout = 3
register_offset AdcChannel.vbat = 5
register_offset AdcChannel.die_temp = 6
register_offset AdcChannel.ts_bat = 7
register_offset AdcChannel.ts_bus = 8

-- `AdcChannel::register`, with its saturating `u8` sum.
abbrev pub register : AdcChannel → ℕ
register channel = min (Regs.adc_first_sts + register_offset channel) u8_max

abbrev pub channel_code : AdcChannel → ℕ
channel_code AdcChannel.vout = 1
channel_code AdcChannel.vin = 2
channel_code AdcChannel.vbat = 3
channel_code AdcChannel.vac = 4
channel_code AdcChannel.iin = 5
channel_code AdcChannel.die_temp = 6
channel_code AdcChannel.ts_bat = 7
channel_code AdcChannel.ts_bus = 8

abbrev pub adc_index : AdcChannel → ℕ
adc_index AdcChannel.iin = 1
adc_index AdcChannel.vac = 2
adc_index AdcChannel.vin = 3
adc_index AdcChannel.vout = 4
adc_index AdcChannel.vbat = 6
adc_index AdcChannel.die_temp = 7
adc_index AdcChannel.ts_bat = 8
adc_index AdcChannel.ts_bus = 9

-- The first `match` of `decode`: the ten-bit code inside the byte pair.
abbrev pub slice_code : AdcChannel → ℕ → ℕ → ℕ
slice_code AdcChannel.iin low high = bit_and high 0x03 * 256 + low
slice_code AdcChannel.vbat low high = bit_and high 0x03 * 256 + low
slice_code AdcChannel.vac low high = bit_and high 0x0f * 64 + bit_and low 0xfc / 4
slice_code AdcChannel.die_temp low high = bit_and high 0x0f * 64 + bit_and low 0xfc / 4
slice_code AdcChannel.vin low high = bit_and high 0x3f * 16 + bit_and low 0xf0 / 16
slice_code AdcChannel.ts_bat low high = bit_and high 0x3f * 16 + bit_and low 0xf0 / 16
slice_code AdcChannel.vout low high = bit_and high 0xff * 4 + bit_and low 0xc0 / 64
slice_code AdcChannel.ts_bus low high = bit_and high 0xff * 4 + bit_and low 0xc0 / 64

unfoldable pub raw_code : AdcChannel → ℕ → ℕ
raw_code channel raw = slice_code channel (bit_and raw 0x00ff) (bit_and (raw / 256) 0x00ff)

-- The second `match`: the code in physical units.
abbrev pub convert_code : AdcChannel → ℕ → ℤ
convert_code AdcChannel.vin code = pos (code * 16_000)
convert_code AdcChannel.vout code = pos (code * 5_000)
convert_code AdcChannel.vbat code = pos (code * 5_000)
convert_code AdcChannel.vac code = pos ((code + 5) * 16_000)
convert_code AdcChannel.iin code = pos (code * 4_890)
convert_code AdcChannel.die_temp code =
    clamp_ℤ (neg 250) (pos 1_600) (quot (scale (sub_ℕ 935 code) 4_350) 1_000)
convert_code AdcChannel.ts_bat code = pos (code * 2_933)
convert_code AdcChannel.ts_bus code = pos (code * 2_933)

unfoldable pub decode : AdcChannel → ℕ → ℤ
decode channel raw = convert_code channel (raw_code channel raw)

pub record Status : Type 0 where
  pub sys_sts : ℕ
  pub op_mode : OpMode
  pub safety_sts : ℕ
  pub fault1_sts : ℕ
  pub fault2_sts : ℕ
  pub ldo_sts : ℕ

unfoldable pub volt_qual : Status → Bool → Bool
volt_qual s charge_enabled =
    if has_bits s.fault1_sts Regs.fault1_vfaults_mask
    then false
    else not (charge_enabled && has_bits s.fault2_sts Regs.fault2_volt_fault)

unfoldable pub has_critical_fault : Status → Bool
has_critical_fault s =
    has_bits s.fault1_sts
      (bit_or Regs.fault1_watchdog (bit_or Regs.fault1_vbat_ov Regs.fault1_vac_ov))
    || has_bits s.safety_sts (bit_or Regs.safety_ntc_shutdown Regs.safety_temp_max)

pub fault_summary : Status → String
fault_summary s =
    if has_bits s.safety_sts Regs.safety_temp_max
    then "temp_max"
    else if has_bits s.safety_sts Regs.safety_ntc_shutdown
    then "ntc_shutdown"
    else if has_bits s.fault1_sts Regs.fault1_vbat_ov
    then "vbat_ov"
    else if has_bits s.fault1_sts Regs.fault1_vac_ov
    then "vac_ov"
    else if has_bits s.fault2_sts Regs.fault2_iin_oc
    then "iin_oc"
    else if has_bits s.fault1_sts Regs.fault1_watchdog
    then "watchdog"
    else if has_bits s.fault1_sts Regs.fault1_vac_unplug
    then "vac_unplug"
    else ""
