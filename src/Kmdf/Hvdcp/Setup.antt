-- ===== src/Kmdf/Hvdcp/Setup.antt =====
-- The preparation of the charger for a negotiation, and its input current limit
-- (crates/ln8000-kmdf/src/hvdcp.rs).
use nabu_charger.Prelude.{ℕ, ◌==◌, leb, bit_and, bit_or}
use nabu_charger.Prelude.Methods.{pure, branch, ◌>>=◌, ◌>>◌}
use nabu_charger.Kmdf.Hvdcp.{Bus, Machine, Op}
use nabu_charger.Kmdf.Hvdcp.Regs
use nabu_charger.Kmdf.Hvdcp.Access.{read_reg, write_reg, ignoring, act, edit}
use nabu_charger.Kmdf.Hvdcp.Band.{with_adapter_allow_5v_to_12v, with_qc2_max_9v}

module _ {W : Type 0} (bus : Bus W) where
  unfoldable pub clear_usbin_latched : Op W Unit
  clear_usbin_latched = ignoring (write_reg bus Regs.reg_int_latched_clr 0xff)

  unfoldable pub clear_apsd_cc_gate : Op W ℕ
  clear_apsd_cc_gate = do
    cfg ← read_reg bus Regs.reg_type_c_cfg
    branch (bit_and cfg Regs.bit_bc1p2_start_on_cc == 0) (pure cfg)
        (do write_reg bus Regs.reg_type_c_cfg (bit_and cfg 0x7f); pure (bit_and cfg 0x7f))

  unfoldable pub clear_usbin_suspend : Op W Unit
  clear_usbin_suspend = ignoring (do
    cmd_il ← read_reg bus Regs.reg_usbin_cmd_il
    branch (bit_and cmd_il Regs.bit_usbin_suspend == 0) (pure tt)
        (write_reg bus Regs.reg_usbin_cmd_il (bit_and cmd_il 0xfe)))

  unfoldable pub ensure_icl_floor_500ma : Op W ℕ
  ensure_icl_floor_500ma = do
    current ← read_reg bus Regs.reg_usbin_icl_cfg
    branch (leb Regs.icl_raw_500ma current) (pure current) (do
      write_reg bus Regs.reg_usbin_icl_cfg Regs.icl_raw_500ma
      ignoring (write_reg bus Regs.reg_cmd_icl_override Regs.bit_icl_override)
      pure Regs.icl_raw_500ma)

  abbrev raised : ℕ → ℕ → Op W ℕ
  raised target current =
      branch (leb target current) (pure current)
        (do write_reg bus Regs.reg_usbin_icl_cfg target; pure target)

  unfoldable pub ensure_icl_at_least : ℕ → Op W ℕ
  ensure_icl_at_least target = do
    current ← read_reg bus Regs.reg_usbin_icl_cfg
    applied ← raised target current
    ignoring (write_reg bus Regs.reg_cmd_icl_override Regs.bit_icl_override)
    clear_usbin_suspend
    pure applied

  abbrev pub ensure_icl_for_pump : Op W ℕ
  ensure_icl_for_pump = ensure_icl_at_least Regs.icl_raw_pump_3a

  abbrev hvdcp_options : ℕ → ℕ
  hvdcp_options options =
      bit_and
        (bit_or options
          (bit_or (bit_or Regs.bit_hvdcp_en Regs.bit_hvdcp_auth_alg_en) Regs.bit_bc1p2_src_detect))
        0xdf

  unfoldable pub enable_hvdcp : Op W Unit
  enable_hvdcp = do
    options ← read_reg bus Regs.reg_usbin_options_1
    write_reg bus Regs.reg_usbin_options_1 (hvdcp_options options)
    edit (λ s. record s { options1 = hvdcp_options options })

  -- `if new != old { write_reg(…)?; }`
  abbrev written_if_new : ℕ → ℕ → ℕ → Op W Unit
  written_if_new addr old new = branch (new == old) (pure tt) (write_reg bus addr new)

  unfoldable pub ensure_hvdcp_voltage_gates : Op W (ℕ × ℕ)
  ensure_hvdcp_voltage_gates = do
    allow ← read_reg bus Regs.reg_usbin_adapter_allow
    written_if_new Regs.reg_usbin_adapter_allow allow (with_adapter_allow_5v_to_12v allow)
    pulse_max ← read_reg bus Regs.reg_hvdcp_pulse_count_max
    written_if_new Regs.reg_hvdcp_pulse_count_max pulse_max (with_qc2_max_9v pulse_max)
    pure (with_adapter_allow_5v_to_12v allow, with_qc2_max_9v pulse_max)

  unfoldable pub apsd_rerun : Op W Unit
  apsd_rerun = write_reg bus Regs.reg_cmd_apsd Regs.bit_apsd_rerun

  unfoldable pub sample_qc_status : Machine W → Op W (ℕ × ℕ)
  sample_qc_status m = do
    act (m.sleep Regs.qc_status_settle_ms)
    qc_change ← read_reg bus Regs.reg_qc_change_status
    qc_pulses ← read_reg bus Regs.reg_qc_pulse_count
    pure (qc_change, qc_pulses)
