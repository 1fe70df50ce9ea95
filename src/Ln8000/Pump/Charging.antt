-- ===== src/Ln8000/Pump/Charging.antt =====
-- Starting and stopping the charge, with the recovery of the 5 V fallback
-- (crates/ln8000/src/driver.rs). The caller's `post_reset_delay` is a step of the bus: what the
-- chip does while the caller sleeps.
pub mod Outcome
use nabu_charger.Prelude.{
  ℕ, ◌-◌, Bool, true, false, not, ◌&&◌, ◌||◌, if◌then◌else◌, leb, ltb, max, min, Option, none, some,
  Result, ok, err, ℤ, pos, pos_part, sat_add,
}
use nabu_charger.Ln8000.Regs
use nabu_charger.Ln8000.Error.{PumpError, mode_not_reached}
use nabu_charger.Ln8000.Mode.{OpMode, standby, bypass, switching, mode_code, mode_eq, has_bits}
use nabu_charger.Ln8000.Bus.{RegisterBus}
use nabu_charger.Ln8000.Codes.{encode_vbat_float}
use nabu_charger.Ln8000.Config.{PumpConfig}
use nabu_charger.Ln8000.Status.{vin}
use nabu_charger.Ln8000.Window.{
  charge_mode, vbat_near_float_with_vin, soft_float_for_vbat, vbat_taper_iin_ua,
  por_vin_tolerance_uv,
}
use nabu_charger.Ln8000.Pump.{
  Pump, PumpState, Op, pure, fail, ignore, or_value, gets, modify, attempt, branch, ◌>>=◌, ◌>>◌,
  read, read_adc, update, write_verified,
}
use nabu_charger.Ln8000.Pump.Setup.{
  set_op_mode, configure, clear_latched_faults, write_iin_limit, soft_reset,
}
use nabu_charger.Ln8000.Pump.NearFloat.{
  vin_or_zero, when, prepare_near_float_for_charge, arm_5v_bypass_fault_mask,
}
use nabu_charger.Ln8000.Pump.Modes.{
  settle_and_read_status, enable_switching, enable_bypass, battery_uv,
}

abbrev abs_diff : ℕ → ℕ → ℕ
abs_diff a b = max (a - b) (b - a)

-- Whether the reset of this input is spent: the same Vin within the tolerance, and no voltage
-- fault latched.
unfoldable pub por_spent_for : ℕ → ℕ → ℕ → Bool
por_spent_for prev vin_now fault1 =
    leb (abs_diff vin_now prev) por_vin_tolerance_uv
    && not (has_bits fault1 Regs.fault1_vfaults_mask)

abbrev pub state_for : OpMode → PumpState
state_for OpMode.switching = PumpState.switching
state_for OpMode.bypass = PumpState.configured
state_for OpMode.standby = PumpState.configured
state_for OpMode.unknown = PumpState.configured

module _ {B : Type 0} (io : RegisterBus B) where
  module _ (post_reset_delay : B → B) where
    -- Stage 3: the fault mask, the mode again, and the mask taken back when io that fails.
    unfoldable pub recover_masked : Op B OpMode
    recover_masked = do
      modify (λ p. record p { bypass_stage = 3 })
      ignore (arm_5v_bypass_fault_mask io)
      set_op_mode io bypass
      now ← settle_and_read_status io
      branch (mode_eq now.op_mode bypass)
          (do modify (λ p. record p { state = PumpState.configured }); pure now.op_mode)
          (do
            ignore (
                update io Regs.fault_ctrl Regs.fault_ctrl_mask_5v_bypass 0
                  "unmask_after_failed_bypass")
            fail (mode_not_reached (mode_code bypass) now.sys_sts))

    -- The mode after the reset, when the chip is still in the window of the 5 V fallback.
    unfoldable pub recover_mode : Bool → Op B OpMode
    recover_mode false = fail (mode_not_reached (mode_code bypass) 0)
    recover_mode true = do
      set_op_mode io bypass
      now ← settle_and_read_status io
      branch (mode_eq now.op_mode bypass)
          (do
            modify (λ p. record p { state = PumpState.configured })
            prepare_near_float_for_charge io false
            pure now.op_mode)
          recover_masked

    abbrev pub wants_bypass : Option OpMode → Bool
    wants_bypass (some mode) = mode_eq mode bypass
    wants_bypass none = false

    -- Stage 2: the reset, the delay, the profile again, and the mode.
    unfoldable pub recover_reset : ℕ → Op B OpMode
    recover_reset vin_now = do
      modify (λ p. record p { por_vin_uv = some vin_now })
      ignore (soft_reset io)
      modify (λ p. record p { bypass_stage = 2; bus = post_reset_delay p.bus })
      ignore (configure io)
      vin_uv ← vin_or_zero io
      vbat_uv ← battery_uv io
      recover_mode (wants_bypass (charge_mode vin_uv vbat_uv))

    -- Whether the reset of this input was done already decides.
    unfoldable pub recover_within_budget : ℤ → Option ℕ → Op B OpMode
    recover_within_budget vin_read none = recover_reset (pos_part vin_read)
    recover_within_budget vin_read (some prev) = do
      fault1 ← or_value (read io Regs.fault1_sts) 0
      branch (por_spent_for prev (pos_part vin_read) fault1)
          (do
            raw_status ← or_value (read io Regs.sys_sts) 0
            fail (mode_not_reached (mode_code bypass) raw_status))
          (recover_reset (pos_part vin_read))

    unfoldable pub recover_5v_bypass : Op B OpMode
    recover_5v_bypass = do
      vin_read ← vin_or_zero io
      spent ← gets (λ p. p.por_vin_uv)
      recover_within_budget vin_read spent

    -- Switching the charge off; the reset of the input is free again.
    unfoldable pub stop_charging : Op B OpMode
    stop_charging = do
      modify (λ p. record p { por_vin_uv = none })
      set_op_mode io standby
      now ← settle_and_read_status io
      modify (λ p. record p { op_mode = now.op_mode; state = PumpState.configured })
      pure now.op_mode

    -- The steps before the mode request that the 5 V fallback goes without.
    unfoldable pub prepare_elevated : OpMode → Op B Unit
    prepare_elevated want = do
      prepare_near_float_for_charge io true
      ignore (clear_latched_faults io)
      when io (mode_eq want switching) (
          ignore (
            update io Regs.fault_ctrl Regs.fault_ctrl_disable_vin_ov Regs.fault_ctrl_disable_vin_ov
              "disable_vin_ov_qc"))

    -- `or_else`
    abbrev pub or_recover : Result OpMode PumpError × Pump B → Result OpMode PumpError × Pump B
    or_recover (ok mode, q) = (ok mode, q)
    or_recover (err e, q) = recover_5v_bypass q

    unfoldable pub request_mode : OpMode → Op B OpMode
    request_mode OpMode.switching p = enable_switching io p
    request_mode OpMode.bypass p = or_recover (enable_bypass io (record p { bypass_stage = 1 }))
    request_mode OpMode.standby p = fail (mode_not_reached (mode_code standby) 0) p
    request_mode OpMode.unknown p = fail (mode_not_reached (mode_code OpMode.unknown) 0) p

    -- The `match result` after the request.
    unfoldable pub conclude : OpMode → Result OpMode PumpError → Op B OpMode
    conclude want (ok mode) = do
      modify (λ p. record p { op_mode = mode; state = state_for mode })
      when io (mode_eq mode bypass) (prepare_near_float_for_charge io false)
      pure mode
    conclude want (err e) = do
      when io (not (mode_eq want bypass)) (ignore (set_op_mode io standby))
      fail e

    unfoldable pub start_mode : Option OpMode → Op B OpMode
    start_mode none = do
      ignore (set_op_mode io standby)
      fail (mode_not_reached (mode_code standby) 0)
    start_mode (some want) = do
      cfg ← gets (λ p. p.config)
      when io (not cfg.watchdog_enabled)
          (ignore (update io Regs.timer_ctrl 128 0 "watchdog_force_off"))
      modify (λ p. record p { bypass_stage = 0 })
      when io (not (mode_eq want bypass)) (prepare_elevated want)
      result ← attempt (request_mode want)
      conclude want result

    unfoldable pub start_charging : Op B OpMode
    start_charging = do
      vin_uv ← vin_or_zero io
      vbat_uv ← battery_uv io
      start_mode (charge_mode vin_uv vbat_uv)

    unfoldable pub set_charging : Bool → Op B OpMode
    set_charging on = do
      update io Regs.sys_ctrl 4 0 "disable_reverse_current"
      branch on start_charging stop_charging
