-- ===== src/Kmdf/Hvdcp/Negotiate.antt =====
-- The negotiation with the adapter, and the choice of the bus it runs over
-- (crates/ln8000-kmdf/src/hvdcp.rs).
use nabu_charger.Prelude.{
  ℕ, zero, suc, Bool, true, ◌&&◌, ◌||◌, not, Option, none, some, leb, ltb, Result, ok, err, ℤ, pos,
  ltb_ℤ, leb_ℤ,
}
use nabu_charger.Prelude.Methods.{pure, throw, lift, gets, branch, rescue, attempt, ◌>>=◌, ◌>>◌}
use nabu_charger.Ln8000.Mode.{has_bits}
use nabu_charger.Ln8000.Hvdcp.{ApsdElevate, promote_qc_charger, apsd_elevate_path, force9v_rise_uv}
use nabu_charger.Kmdf.Hvdcp.{
  HvdcpTransport, HvdcpPhase, HvdcpError, hvdcp_error_code, HvdcpState, SuperuserBus, SpbBus, Bus,
  superuser, usbin, Machine, Op,
}
use nabu_charger.Kmdf.Hvdcp.Regs
use nabu_charger.Kmdf.Hvdcp.Band.{target_vbus_uv, trim_target_uv, pulses_toward_target}
use nabu_charger.Kmdf.Hvdcp.Access.{
  ask, act, edit, ignoring, or_zero, succeeds, read_reg, resolve_endian_usbin,
}
use nabu_charger.Kmdf.Hvdcp.Pulses.{pulse_inc, force_9v, safe_force_5v}
use nabu_charger.Kmdf.Hvdcp.Waits.{read_vin, wait_apsd_done, wait_rise, hold_loop}
use nabu_charger.Kmdf.Hvdcp.Setup.{
  clear_usbin_latched, clear_usbin_suspend, clear_apsd_cc_gate, ensure_icl_floor_500ma,
  ensure_icl_at_least, enable_hvdcp, ensure_hvdcp_voltage_gates, apsd_rerun, sample_qc_status,
}
use nabu_charger.Kmdf.Hvdcp.Qc35.{attempt_qc35_authenticate}

abbrev pub spmi_peri_usbin : ℕ
spmi_peri_usbin = 0x13

module _ {W : Type 0} where
  abbrev pub enter : HvdcpPhase → Op W Unit
  enter phase = edit (λ s. record s { phase = phase })

  -- The phase is `Failed` when the error is returned.
  unfoldable pub or_failed : {A : Type 0} → Op W A → Op W A
  or_failed m = rescue m (λ e. do enter HvdcpPhase.failed; throw e)

-- What the registers say before the negotiation.
pub record Before : Type 0 where
  pub pre_status : ℕ
  pub pre_result : ℕ
  pub pre_qc : ℕ

abbrev pub qc3_continuous : Before → Bool
qc3_continuous b = has_bits b.pre_qc Regs.bit_qc_continuous

abbrev pub already_qc3 : Before → Bool
already_qc3 b = has_bits b.pre_result Regs.bit_qc3 || qc3_continuous b

abbrev pub already_qc2 : Before → Bool
already_qc2 b =
    has_bits b.pre_result Regs.bit_qc2
    || (has_bits b.pre_status Regs.bit_qc_charger
        && (has_bits b.pre_result Regs.bit_dcp
            && (not (has_bits b.pre_result Regs.bit_qc3) && not (already_qc3 b))))

abbrev pub skip_apsd_rerun : Before → Bool
skip_apsd_rerun b = has_bits b.pre_status Regs.bit_apsd_done && (already_qc3 b || already_qc2 b)

-- A rerun took the Quick Charge signature away and left a plain charging port.
abbrev pub demoted : Before → ℕ → Bool
demoted b result =
    has_bits result Regs.bit_dcp
    && ((not (has_bits result Regs.bit_qc3) && has_bits b.pre_result Regs.bit_qc3)
        || (not (has_bits result Regs.bit_qc2) && has_bits b.pre_result Regs.bit_qc2))

abbrev pub restored : Before → HvdcpState → HvdcpState
restored b s = record s { apsd_status = b.pre_status; apsd_result = b.pre_result }

module _ {W : Type 0} (m : Machine W) where
  module _ (bus : Bus W) where
    -- The phase is `Failed` and the bus back at 5 V when the error is returned.
    unfoldable pub or_dropped : {A : Type 0} → Op W A → Op W A
    or_dropped k = rescue k (λ e. do enter HvdcpPhase.failed; safe_force_5v m bus; throw e)

    unfoldable pub rerun_apsd : Before → Op W Unit
    rerun_apsd b = do
      enter HvdcpPhase.apsd_rerun
      or_failed (apsd_rerun bus)
      enter HvdcpPhase.apsd_wait
      or_failed (wait_apsd_done m bus)
      result ← gets (λ p. p.state.apsd_result)
      branch (demoted b result) (edit (restored b)) (pure tt)

    unfoldable pub raise_loop : ℕ → ℕ → ℤ → Op W Unit
    raise_loop vbat_uv zero vin_now = pure tt
    raise_loop vbat_uv (suc left) vin_now = do
      count ← gets (λ p. p.state.pulse_cnt)
      branch (leb Regs.max_pulse_cnt count || leb_ℤ (pos (target_vbus_uv vbat_uv)) vin_now)
          (pure tt)
          (do
            or_dropped (pulse_inc m bus)
            vin ← read_vin m
            branch (ltb_ℤ (pos (trim_target_uv vbat_uv)) vin) (pure tt)
                (raise_loop vbat_uv left vin))

    unfoldable pub elevate_qc3 : ℕ → Op W Unit
    elevate_qc3 vbat_uv = do
      enter HvdcpPhase.qc35_auth
      attempt_qc35_authenticate m bus
      enter HvdcpPhase.qc3_pulse
      vin ← read_vin m
      raise_loop vbat_uv (pulses_toward_target vbat_uv) vin

    unfoldable pub request_9v : Op W Unit
    request_9v = do
      enter HvdcpPhase.qc2_force9v
      or_dropped (force_9v m bus)
      ignoring (ensure_icl_at_least bus Regs.icl_raw_hvdcp2_1p5a)

    -- The `while` of the retreat to pulses, with the pulses that are left; the last reading.
    unfoldable pub pulse_raise : ℕ → ℕ → ℤ → Op W ℤ
    pulse_raise vbat_uv zero vin_now = pure vin_now
    pulse_raise vbat_uv (suc left) vin_now = do
      count ← gets (λ p. p.state.pulse_cnt)
      branch (ltb_ℤ vin_now (pos (target_vbus_uv vbat_uv)) && ltb count Regs.max_pulse_cnt)
          (do
            sent ← succeeds (pulse_inc m bus)
            branch sent (do vin ← read_vin m; pulse_raise vbat_uv left vin) (pure vin_now))
          (pure vin_now)

    abbrev pub settled_at : ℤ → Op W Unit
    settled_at vin =
        branch (ltb_ℤ vin (pos force9v_rise_uv))
          (do safe_force_5v m bus; ignoring (ensure_icl_at_least bus Regs.icl_raw_dcp_2a))
          (ignoring (ensure_icl_at_least bus Regs.icl_raw_hvdcp2_1p5a))

    -- The level did not hold: back to 5 V, and up by pulses.
    unfoldable pub retreat_to_pulses : ℕ → ℤ → Op W Unit
    retreat_to_pulses vbat_uv vin_after = do
      safe_force_5v m bus
      edit (λ s. record s { pulse_cnt = 0 })
      vin ← pulse_raise vbat_uv Regs.max_pulse_cnt vin_after
      settled_at vin

    unfoldable pub elevate_dcp : ℕ → Op W Unit
    elevate_dcp vbat_uv = do
      request_9v
      wait_rise m
      vin ← read_vin m
      held ← hold_loop m 4 0 vin
      branch (ltb held.hold 2) (retreat_to_pulses vbat_uv held.vin_after) (pure tt)

    abbrev pub elevated : ℕ → ℕ → ApsdElevate → Op W Unit
    elevated vbat_uv result ApsdElevate.qc3_pulse = elevate_qc3 vbat_uv
    elevated vbat_uv result ApsdElevate.force9v =
        branch (has_bits result Regs.bit_qc2) request_9v (elevate_dcp vbat_uv)
    elevated vbat_uv result ApsdElevate.reject = do
      enter HvdcpPhase.failed
      throw HvdcpError.not_qc_adapter

    unfoldable pub prepare : Op W Unit
    prepare = do
      edit (λ s. record s { pulse_cnt = 0 })
      clear_usbin_latched bus
      clear_usbin_suspend bus
      or_failed (clear_apsd_cc_gate bus)
      ignoring (ensure_icl_floor_500ma bus)
      ignoring (ensure_hvdcp_voltage_gates bus)

    unfoldable pub registers_before : Op W Before
    registers_before = do
      status ← or_zero (read_reg bus Regs.reg_apsd_status)
      result ← or_zero (read_reg bus Regs.reg_apsd_result)
      qc ← or_zero (read_reg bus Regs.reg_qc_change_status)
      pure (record { pre_status = status; pre_result = result; pre_qc = qc })

    unfoldable pub identify : Before → Op W Unit
    identify b = do
      enter HvdcpPhase.enable
      or_failed (enable_hvdcp bus)
      act (m.sleep Regs.enable_settle_ms)
      branch (skip_apsd_rerun b) (edit (restored b)) (rerun_apsd b)
      edit (λ s. record s { apsd_result = promote_qc_charger s.apsd_result s.apsd_status })

    unfoldable pub negotiate_on_bus : ℕ → Op W Unit
    negotiate_on_bus vbat_uv = do
      prepare
      b ← registers_before
      identify b
      result ← gets (λ p. p.state.apsd_result)
      elevated vbat_uv result (apsd_elevate_path result (qc3_continuous b))
      ignoring (sample_qc_status bus m)
      enter HvdcpPhase.done

  -- What is dropped at the end of its scope is dropped on either outcome.
  unfoldable pub dropping : {A : Type 0} → (W → W) → Op W A → Op W A
  dropping drop k = do r ← attempt k; act drop; lift r

  abbrev pub over_usbin : ℕ → Option (SpbBus W) → Op W Unit
  over_usbin vbat_uv none = do enter HvdcpPhase.failed; throw HvdcpError.bus_open_failed
  over_usbin vbat_uv (some rh) = dropping rh.drop (do
    or_failed (resolve_endian_usbin rh)
    edit (λ s. record s { transport = HvdcpTransport.usbin_rh })
    negotiate_on_bus (usbin rh) vbat_uv)

  abbrev pub secondary : ℕ → Option ℕ → Op W Unit
  secondary vbat_uv none = do
    edit (λ s. record s { phase = HvdcpPhase.failed; transport = HvdcpTransport.none })
    throw HvdcpError.usbin_unavailable
  secondary vbat_uv (some id) = do opened ← ask (m.open_spb id); over_usbin vbat_uv opened

  abbrev pub granted : ℕ → Option ℕ → SuperuserBus W → Option (Unit {0}) → Op W Unit
  granted vbat_uv usbin_id su none = do act su.drop; secondary vbat_uv usbin_id
  granted vbat_uv usbin_id su (some u) = dropping su.drop (do
    edit (λ s. record s {
      transport = HvdcpTransport.superuser;
      endian_known = true;
      big_endian = true;
    })
    negotiate_on_bus (superuser su) vbat_uv)

  abbrev pub primary : ℕ → Option ℕ → Option (SuperuserBus W) → Op W Unit
  primary vbat_uv usbin_id none = secondary vbat_uv usbin_id
  primary vbat_uv usbin_id (some su) = do
    grant ← ask (su.grant spmi_peri_usbin)
    granted vbat_uv usbin_id su grant

  unfoldable pub run_negotiate : Option ℕ → ℕ → Op W Unit
  run_negotiate usbin_id vbat_uv = do
    edit (λ s. record s { phase = HvdcpPhase.enable; transport = HvdcpTransport.none })
    opened ← ask m.open_superuser
    primary vbat_uv usbin_id opened

  abbrev pub code_of : Result (Unit {0}) HvdcpError → ℤ
  code_of (ok u) = pos 0
  code_of (err e) = hvdcp_error_code e

  pub run_negotiate_report : Option ℕ → ℕ → Op W (ℤ × ℕ)
  run_negotiate_report usbin_id vbat_uv = do
    outcome ← attempt (run_negotiate usbin_id vbat_uv)
    pure (code_of outcome, target_vbus_uv vbat_uv)
