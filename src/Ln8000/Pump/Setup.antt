-- ===== src/Ln8000/Pump/Setup.antt =====
-- Setting the chip up, the single settings, the status snapshot, and the raw register access
-- (crates/ln8000/src/driver.rs).
use nabu_charger.Prelude.{
  ℕ, ◌*◌, Bool, true, false, not, ◌&&◌, ◌==◌, if◌then◌else◌, bit_or, Option, some, none, Result, ok,
  err,
}
use Prim.Native.String.{String}
use nabu_charger.Ln8000.Regs
use nabu_charger.Ln8000.Error.{PumpError}
use nabu_charger.Ln8000.Mode.{
  OpMode, standby, unknown, from_sys_sts, sys_ctrl_bits, sys_ctrl_mask, has_bits, AdcMode,
  adc_mode_code, hibernate_code, sec4, watchdog_code, shutdown, auto_hibernate,
}
use nabu_charger.Ln8000.Bus.{RegisterBus}
use nabu_charger.Ln8000.Codes.{
  encode_iin_limit, encode_vbat_float, encode_vac_ovp, encode_ntc_alarm, decode_iin_limit,
}
use nabu_charger.Ln8000.Status.{Status}
use nabu_charger.Ln8000.Pump.{
  Pump, PumpState, Op, pure, or_value, lift, gets, modify, ◌>>=◌, ◌>>◌, require_open, is_closed,
  read, write, update, write_verified,
}

-- `u8::from(flag) << bit`
abbrev pub flag_at : Bool → ℕ → ℕ
flag_at true bit = bit
flag_at false bit = 0

module _ {B : Type 0} (io : RegisterBus B) where
  unfoldable pub set_op_mode : OpMode → Op B Unit
  set_op_mode target = do
    require_open
    bits ← lift (sys_ctrl_bits target)
    update io Regs.sys_ctrl sys_ctrl_mask bits "op_mode"
    modify (λ p. record p { op_mode = target })

  unfoldable pub configure_protections : Op B Unit
  configure_protections = do
    cfg ← gets (λ p. p.config)
    update io Regs.fault_ctrl 32 0 "enable_vbat_ovp"
    update io Regs.fault_ctrl 64 64 "iin_ocp_off_nabu_dts"
    update io Regs.regulation_ctrl 32 (flag_at cfg.vbat_reg_disabled 32) "vfloat_loop"
    update io Regs.regulation_ctrl 128 (flag_at (not cfg.vbat_reg_disabled) 128) "vfloat_loop_int"
    update io Regs.regulation_ctrl 16 (flag_at cfg.iin_reg_disabled 16) "iin_loop"
    update io Regs.regulation_ctrl 64 (flag_at (not cfg.iin_reg_disabled) 64) "iin_loop_int"
    update io Regs.regulation_ctrl 4 (flag_at (not cfg.tdie_prot_disabled) 4) "tdie_prot"
    update io Regs.regulation_ctrl 2 (flag_at (not cfg.tdie_reg_disabled) 2) "tdie_regulation"
    update io Regs.sys_ctrl 4 0 "disable_reverse_current"

  -- Steps 1 to 6 of `configure`: the thresholds, the NTC field, recovery and the monitors.
  unfoldable pub configure_thresholds : Op B Unit
  configure_thresholds = do
    cfg ← gets (λ p. p.config)
    write_verified io Regs.v_float_ctrl (encode_vbat_float cfg.vbat_float_uv) "vbat_float"
    update io Regs.glitch_ctrl 12 (encode_vac_ovp cfg.vac_ovp_uv * 4) "vac_ovp"
    iin_code ← lift (encode_iin_limit cfg.iin_limit_ua)
    update io Regs.iin_ctrl 0x7f iin_code "iin_limit"
    write_verified io Regs.ntc_ctrl (encode_ntc_alarm cfg.ntc_alarm_cfg).0 "ntc_alarm_low"
    update io Regs.adc_ctrl 0x03 (encode_ntc_alarm cfg.ntc_alarm_cfg).1 "ntc_alarm_high"
    update io Regs.regulation_ctrl 12 (Regs.ntc_shutdown_cfg * 4) "ntc_shutdown_cfg"
    update io Regs.recovery_ctrl 0xf3
        (bit_or (flag_at cfg.auto_recovery 0xf0)
          (bit_or (flag_at (not cfg.tbus_mon_disabled) 2) (flag_at (not cfg.tbat_mon_disabled) 1)))
        "recovery_and_monitors"

  -- Step 9: the watchdog and the ADC.
  unfoldable pub configure_watchdog_and_adc : Op B Unit
  configure_watchdog_and_adc = do
    cfg ← gets (λ p. p.config)
    update io Regs.timer_ctrl 128 (flag_at cfg.watchdog_enabled 128) "watchdog_enable"
    update io Regs.timer_ctrl 96 (watchdog_code cfg.watchdog_period * 32) "watchdog_period"
    update io Regs.adc_ctrl 224 (adc_mode_code shutdown * 32) "adc_off_before_config"
    update io Regs.adc_ctrl 24 (hibernate_code sec4 * 8) "adc_hibernate_delay"
    write_verified io Regs.adc_cfg 0x3e "adc_channels"
    update io Regs.adc_ctrl 224 (adc_mode_code auto_hibernate * 32) "adc_auto"

  -- `Pump::configure`, the ten steps in order.
  unfoldable pub configure : Op B Unit
  configure = do
    require_open
    configure_thresholds
    configure_protections
    set_op_mode standby
    update io Regs.fault_ctrl 16 0 "enable_vac_ov"
    configure_watchdog_and_adc
    update io Regs.charge_ctrl 128 128 "sw_init_marker"
    write_verified io Regs.threshold_ctrl Regs.threshold_ctrl_default "thresholds"
    modify (λ p. record p { state = PumpState.configured })

  unfoldable pub status : Op B Status
  status = do
    require_open
    sys_sts ← read io Regs.sys_sts
    safety_sts ← read io Regs.safety_sts
    fault1_sts ← read io Regs.fault1_sts
    fault2_sts ← read io Regs.fault2_sts
    ldo_sts ← read io Regs.ldo_sts
    modify (λ p. record p { op_mode = from_sys_sts sys_sts })
    pure (record {
      sys_sts = sys_sts;
      op_mode = from_sys_sts sys_sts;
      safety_sts = safety_sts;
      fault1_sts = fault1_sts;
      fault2_sts = fault2_sts;
      ldo_sts = ldo_sts;
    })

  unfoldable pub clear_latched_faults : Op B Unit
  clear_latched_faults = do
    update io Regs.timer_ctrl Regs.timer_ctrl_clear_latch Regs.timer_ctrl_clear_latch
        "latch_clear_set"
    update io Regs.timer_ctrl Regs.timer_ctrl_clear_latch 0 "latch_clear_clr"

  unfoldable pub service_watchdog : Op B Unit
  service_watchdog p = elim p.config.watchdog_enabled [
    | true ↦ update io Regs.timer_ctrl 128 128 "watchdog_service" p
    | false ↦ pure tt p
  ]

  unfoldable pub write_iin_limit : ℕ → String → Op B ℕ
  write_iin_limit iin_ua field = do
    code ← lift (encode_iin_limit iin_ua)
    update io Regs.iin_ctrl 0x7f code field
    pure code

  unfoldable pub set_iin_limit : ℕ → Op B ℕ
  set_iin_limit iin_ua = do
    code ← write_iin_limit iin_ua "iin_limit"
    modify (λ p. record p { config = record p.config { iin_limit_ua = iin_ua } })
    pure code

  unfoldable pub set_vbat_float : ℕ → Op B ℕ
  set_vbat_float vbat_uv = do
    write_verified io Regs.v_float_ctrl (encode_vbat_float vbat_uv) "vbat_float"
    modify (λ p. record p { config = record p.config { vbat_float_uv = vbat_uv } })
    pure (encode_vbat_float vbat_uv)

  unfoldable pub set_adc_mode : AdcMode → Op B Unit
  set_adc_mode mode = update io Regs.adc_ctrl 224 (adc_mode_code mode * 32) "adc_mode"

  -- `LION_CTRL` unlocked, then bit 0 of `BC_OP_2` set by an absolute write without read-back.
  unfoldable pub soft_reset : Op B Unit
  soft_reset = do
    write io Regs.lion_ctrl Regs.lion_ctrl_unlock
    current ← or_value (read io Regs.bc_op_2) 0
    write io Regs.bc_op_2 (bit_or current 1)
    modify (λ p. record p { state = PumpState.probed; op_mode = unknown })

  unfoldable pub read_register : ℕ → Op B ℕ
  read_register addr = do require_open; read io addr

  unfoldable pub write_register : ℕ → ℕ → Op B Unit
  write_register addr value = do
    require_open
    if addr == Regs.bc_op_2 && has_bits value 1
        then write io addr value
        else write_verified io addr value "diagnostic"

  abbrev decoded : Result ℕ PumpError → Option ℕ
  decoded (ok raw) = some (decode_iin_limit raw)
  decoded (err e) = none

  unfoldable pub applied_iin_ua : Pump B → Option ℕ × Pump B
  applied_iin_ua p = let (r, q) = read_register Regs.iin_ctrl p in (decoded r, q)

  -- `Pump::close`, which `Drop` calls.
  unfoldable pub close : Pump B → Pump B
  close p = elim (is_closed p.state) [
    | true ↦ p
    | false ↦
        let q =
          (update io Regs.sys_ctrl sys_ctrl_mask Regs.sys_ctrl_standby_en "close_standby" p).1 in
        record q { state = PumpState.closed; op_mode = standby }
  ]
