-- ===== src/Ln8000/Pump/NearFloat.antt =====
-- The taper and the soft float near the top of the charge, and the fault mask of the 5 V fallback
-- (crates/ln8000/src/driver.rs).
use nabu_charger.Prelude.{
  ℕ, Bool, ◌&&◌, ◌||◌, if◌then◌else◌, leb, ltb, min, Option, none, some, ℤ, pos, pos_part, sat_add,
}
use nabu_charger.Ln8000.Regs
use nabu_charger.Ln8000.Mode.{has_bits}
use nabu_charger.Ln8000.Bus.{RegisterBus}
use nabu_charger.Ln8000.Codes.{encode_vbat_float}
use nabu_charger.Ln8000.Config.{PumpConfig}
use nabu_charger.Ln8000.Status.{vin}
use nabu_charger.Ln8000.Window.{vbat_near_float_with_vin, soft_float_for_vbat, vbat_taper_iin_ua}
use nabu_charger.Ln8000.Pump.{
  Op, pure, ignore, or_value, gets, branch, ◌>>=◌, ◌>>◌, read, read_adc, update, write_verified,
}
use nabu_charger.Ln8000.Pump.Setup.{clear_latched_faults, write_iin_limit}
use nabu_charger.Ln8000.Pump.Modes.{battery_uv}

-- `Pump::taper_setpoint_ua`, of the settings it reads.
unfoldable pub taper_setpoint_ua : PumpConfig → ℕ → ℕ → Bool → Option ℕ
taper_setpoint_ua c vbat_uv vin_uv ov_latched =
    if vbat_near_float_with_vin vbat_uv c.vbat_float_uv ov_latched vin_uv
    then some (min c.iin_limit_ua vbat_taper_iin_ua)
    else none

module _ {B : Type 0} (io : RegisterBus B) where
  abbrev pub vin_or_zero : Op B ℤ
  vin_or_zero = or_value (read_adc io vin) (pos 0)

  abbrev pub when : Bool → Op B Unit → Op B Unit
  when b m = branch b m (pure tt)

  -- The soft float, the `VBAT_OV` mask and the latch pulse at the ceiling.
  unfoldable pub raise_float : ℕ → ℕ → Op B Unit
  raise_float float_uv vbat_uv =
      let want_float = soft_float_for_vbat float_uv vbat_uv in
      do
        when (ltb float_uv want_float) (
            ignore (
              write_verified io Regs.v_float_ctrl (encode_vbat_float want_float) "vbat_float_soft"))
        ignore (
            update io Regs.fault_ctrl Regs.fault_ctrl_disable_vbat_ov
              Regs.fault_ctrl_disable_vbat_ov "disable_vbat_ov_near_float")
        ignore (clear_latched_faults io)

  -- What a taper setpoint leads to.
  unfoldable pub taper : Bool → ℕ → Bool → ℕ → Op B Unit
  taper allow_float_raise vbat_uv ov_latched tapered = do
    cfg ← gets (λ p. p.config)
    when ((ov_latched || leb cfg.vbat_float_uv (sat_add vbat_uv 50_000)) && allow_float_raise)
        (raise_float cfg.vbat_float_uv vbat_uv)
    when (ltb tapered cfg.iin_limit_ua) (ignore (write_iin_limit io tapered "iin_taper_near_float"))

  -- Outside the taper band there is nothing to do.
  unfoldable pub tapered_to : Bool → ℕ → Bool → Option ℕ → Op B Unit
  tapered_to allow_float_raise vbat_uv ov_latched none = pure tt
  tapered_to allow_float_raise vbat_uv ov_latched (some tapered) =
      taper allow_float_raise vbat_uv ov_latched tapered

  unfoldable pub prepare_near_float_for_charge : Bool → Op B Unit
  prepare_near_float_for_charge allow_float_raise = do
    vbat_uv ← battery_uv io
    vin_uv ← vin_or_zero
    fault1 ← or_value (read io Regs.fault1_sts) 0
    cfg ← gets (λ p. p.config)
    tapered_to allow_float_raise vbat_uv (has_bits fault1 Regs.fault1_vbat_ov)
        (taper_setpoint_ua cfg vbat_uv (pos_part vin_uv) (has_bits fault1 Regs.fault1_vbat_ov))

  unfoldable pub arm_5v_bypass_fault_mask : Op B Unit
  arm_5v_bypass_fault_mask = do
    update io Regs.fault_ctrl Regs.fault_ctrl_mask_5v_bypass Regs.fault_ctrl_mask_5v_bypass
        "mask_5v_bypass_faults"
    clear_latched_faults io
