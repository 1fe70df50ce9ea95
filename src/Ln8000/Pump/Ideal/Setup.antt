-- ===== src/Ln8000/Pump/Ideal/Setup.antt =====
-- The register program of `configure`, and what it leaves in the registers of an ideal chip.
use nabu_charger.Prelude.{ℕ, ◌*◌, ◌≡◌, refl, not, List, [], ◌∷◌, ok, bit_or}
use nabu_charger.Ln8000.Regs
use nabu_charger.Ln8000.Mode.{standby, watchdog_code}
use nabu_charger.Ln8000.Bus.Memory.{memory}
use nabu_charger.Ln8000.Codes.{
  encode_iin_limit, encode_vbat_float, encode_vac_ovp, encode_ntc_alarm,
}
use nabu_charger.Ln8000.Config.{PumpConfig}
use nabu_charger.Ln8000.Pump.Ideal.{
  Edit, masked, whole, Sets, update-Sets, write_verified-Sets, seq-Sets, gets-Sets, lift-Sets,
  require_open-Sets, modify-Sets,
}
use nabu_charger.Ln8000.Pump.Setup.{
  configure_thresholds, configure_protections, configure_watchdog_and_adc, set_op_mode, flag_at,
}

abbrev pub protection_edits : PumpConfig → List Edit
protection_edits c =
    masked Regs.fault_ctrl 32 0
    ∷ masked Regs.fault_ctrl 64 64
    ∷ masked Regs.regulation_ctrl 32 (flag_at c.vbat_reg_disabled 32)
    ∷ masked Regs.regulation_ctrl 128 (flag_at (not c.vbat_reg_disabled) 128)
    ∷ masked Regs.regulation_ctrl 16 (flag_at c.iin_reg_disabled 16)
    ∷ masked Regs.regulation_ctrl 64 (flag_at (not c.iin_reg_disabled) 64)
    ∷ masked Regs.regulation_ctrl 4 (flag_at (not c.tdie_prot_disabled) 4)
    ∷ masked Regs.regulation_ctrl 2 (flag_at (not c.tdie_reg_disabled) 2)
    ∷ masked Regs.sys_ctrl 4 0
    ∷ []

pub configure_protections-Sets :
    (c : PumpConfig) → Sets c (configure_protections memory) (protection_edits c)
unfolding configure_protections
configure_protections-Sets c = gets-Sets _ _ (
    seq-Sets _ _ _ _ (update-Sets _ _ _ _) (
      seq-Sets _ _ _ _ (update-Sets _ _ _ _) (
        seq-Sets _ _ _ _ (update-Sets _ _ _ _) (
          seq-Sets _ _ _ _ (update-Sets _ _ _ _) (
            seq-Sets _ _ _ _ (update-Sets _ _ _ _) (
              seq-Sets _ _ _ _ (update-Sets _ _ _ _) (
                seq-Sets _ _ _ _ (update-Sets _ _ _ _)
                  (seq-Sets _ _ _ _ (update-Sets _ _ _ _) (update-Sets _ _ _ _)))))))))

-- Steps 1 to 6, with the code of the current limit.
abbrev pub threshold_edits : PumpConfig → ℕ → List Edit
threshold_edits c iin_code =
    whole Regs.v_float_ctrl (encode_vbat_float c.vbat_float_uv)
    ∷ masked Regs.glitch_ctrl 12 (encode_vac_ovp c.vac_ovp_uv * 4)
    ∷ masked Regs.iin_ctrl 0x7f iin_code
    ∷ whole Regs.ntc_ctrl (encode_ntc_alarm c.ntc_alarm_cfg).0
    ∷ masked Regs.adc_ctrl 0x03 (encode_ntc_alarm c.ntc_alarm_cfg).1
    ∷ masked Regs.regulation_ctrl 12 8
    ∷ masked Regs.recovery_ctrl 0xf3 (
        bit_or (flag_at c.auto_recovery 0xf0)
          (bit_or (flag_at (not c.tbus_mon_disabled) 2) (flag_at (not c.tbat_mon_disabled) 1)))
    ∷ []

pub configure_thresholds-Sets :
    (c : PumpConfig) (iin_code : ℕ)
    → encode_iin_limit c.iin_limit_ua ≡ ok iin_code
    → Sets c (configure_thresholds memory) (threshold_edits c iin_code)
unfolding configure_thresholds
configure_thresholds-Sets c iin_code e = gets-Sets _ _ (
    seq-Sets _ _ _ _ (write_verified-Sets _ _ _) (
      seq-Sets _ _ _ _ (update-Sets _ _ _ _) (
        lift-Sets _ iin_code _ _ e (
          seq-Sets _ _ _ _ (update-Sets _ _ _ _) (
            seq-Sets _ _ _ _ (write_verified-Sets _ _ _) (
              seq-Sets _ _ _ _ (update-Sets _ _ _ _)
                (seq-Sets _ _ _ _ (update-Sets _ _ _ _) (update-Sets _ _ _ _))))))))

abbrev pub watchdog_and_adc_edits : PumpConfig → List Edit
watchdog_and_adc_edits c =
    masked Regs.timer_ctrl 128 (flag_at c.watchdog_enabled 128)
    ∷ masked Regs.timer_ctrl 96 (watchdog_code c.watchdog_period * 32)
    ∷ masked Regs.adc_ctrl 224 64
    ∷ masked Regs.adc_ctrl 24 24
    ∷ whole Regs.adc_cfg 0x3e
    ∷ masked Regs.adc_ctrl 224 0
    ∷ []

pub configure_watchdog_and_adc-Sets :
    (c : PumpConfig) → Sets c (configure_watchdog_and_adc memory) (watchdog_and_adc_edits c)
unfolding configure_watchdog_and_adc
configure_watchdog_and_adc-Sets c = gets-Sets _ _ (
    seq-Sets _ _ _ _ (update-Sets _ _ _ _) (
      seq-Sets _ _ _ _ (update-Sets _ _ _ _) (
        seq-Sets _ _ _ _ (update-Sets _ _ _ _) (
          seq-Sets _ _ _ _ (update-Sets _ _ _ _)
            (seq-Sets _ _ _ _ (write_verified-Sets _ _ _) (update-Sets _ _ _ _))))))

pub set_standby-Sets :
    (c : PumpConfig) → Sets c (set_op_mode memory standby) (masked Regs.sys_ctrl 9 8 ∷ [])
unfolding set_op_mode
set_standby-Sets c = seq-Sets _ _ _ _ require_open-Sets (
    lift-Sets _ Regs.sys_ctrl_standby_en _ _ refl (
      seq-Sets _ _ _ _ (update-Sets _ _ _ _)
        (modify-Sets (λ p. record p { op_mode = standby }) (λ p. refl) (λ p. refl) (λ p o. o))))
