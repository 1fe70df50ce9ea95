-- ===== src/Ln8000/Pump/Ideal/Configured.antt =====
-- What `configure` leaves in the registers of an ideal chip.
use nabu_charger.Prelude.{ℕ, ◌≡◌, List, [], ◌∷◌, ◌++◌, bit_and}
use nabu_charger.Ln8000.Regs
use nabu_charger.Ln8000.Bus.Memory.{Image}
use nabu_charger.Ln8000.Codes.{encode_vbat_float, encode_ntc_alarm}
use nabu_charger.Ln8000.Config.{PumpConfig}
use nabu_charger.Ln8000.Pump.{Pump}
use nabu_charger.Ln8000.Pump.Ideal.{Edit, masked, whole}
use nabu_charger.Ln8000.Pump.Ideal.Setup.{protection_edits, threshold_edits, watchdog_and_adc_edits}

-- The ten steps as register edits.
abbrev pub configure_edits : PumpConfig → ℕ → List Edit
configure_edits c iin_code =
    threshold_edits c iin_code
    ++ (protection_edits c
        ++ (masked Regs.sys_ctrl 9 8 ∷ masked Regs.fault_ctrl 16 0 ∷ watchdog_and_adc_edits c
            ++ (masked Regs.charge_ctrl 128 128
                ∷ whole Regs.threshold_ctrl Regs.threshold_ctrl_default
                ∷ [])))

-- The registers that decide about the power path after `configure`.
abbrev pub IsConfigured : PumpConfig → ℕ → Image → Type 0
IsConfigured c iin_code image =
    (image Regs.v_float_ctrl ≡ encode_vbat_float c.vbat_float_uv)
    × (image Regs.ntc_ctrl ≡ (encode_ntc_alarm c.ntc_alarm_cfg).0)
    × (image Regs.adc_cfg ≡ 0x3e)
    × (image Regs.threshold_ctrl ≡ Regs.threshold_ctrl_default)
    × (bit_and (image Regs.sys_ctrl) 13 ≡ 8)
    × (bit_and (image Regs.fault_ctrl) 112 ≡ 64)
    × (bit_and (image Regs.iin_ctrl) 127 ≡ iin_code)
