-- ===== src/Ln8000/Pump/Frame/Charge.antt =====
-- Starting, recovering and stopping the charge keep the settings and the session.
use nabu_charger.Prelude.{
  ℕ, refl, Bool, true, false, Option, some, none, Result, ok, err, ℤ, pos_part, ◌≡◌, ◌∙◌,
}
use nabu_charger.Ln8000.Error.{PumpError}
use nabu_charger.Ln8000.Mode.{OpMode}
use nabu_charger.Ln8000.Bus.{RegisterBus}
use nabu_charger.Ln8000.Pump.{Pump, PumpState, is_closed, modify, ignore}
use nabu_charger.Ln8000.Pump.Frame.{Frame, then-Frame, ignore-Frame, frames, read_adc-Frame}
use nabu_charger.Ln8000.Pump.Frame.Methods.{
  modify-Frame, set_op_mode-Frame, configure-Frame, clear_latched_faults-Frame,
  write_iin_limit-Frame, soft_reset-Frame, settle_and_read_status-Frame, battery_uv-Frame,
  enable_switching-Frame, enable_bypass-Frame,
}
use nabu_charger.Ln8000.Pump.Setup.{soft_reset}
use nabu_charger.Ln8000.Pump.Modes.{enable_bypass}
use nabu_charger.Ln8000.Pump.NearFloat.{
  raise_float, taper, tapered_to, prepare_near_float_for_charge, arm_5v_bypass_fault_mask,
}
use nabu_charger.Ln8000.Pump.Charging.{
  recover_masked, recover_mode, recover_reset, recover_within_budget, recover_5v_bypass,
  stop_charging, prepare_elevated, or_recover, request_mode, conclude, start_mode, start_charging,
  set_charging, state_for,
}

module _ {B : Type 0} (io : RegisterBus B) where
  raise_float-Frame : (float_uv vbat_uv : ℕ) → Frame (raise_float io float_uv vbat_uv)
  unfolding raise_float
  raise_float-Frame float_uv vbat_uv = search (frames, clear_latched_faults-Frame) depth 24

  taper-Frame : (a : Bool) (vbat_uv : ℕ) (ov : Bool) (t : ℕ) → Frame (taper io a vbat_uv ov t)
  unfolding taper
  taper-Frame a vbat_uv ov t = search (frames, raise_float-Frame, write_iin_limit-Frame) depth 24

  tapered_to-Frame :
      (a : Bool) (vbat_uv : ℕ) (ov : Bool) (t : Option ℕ) → Frame (tapered_to io a vbat_uv ov t)
  unfolding tapered_to
  tapered_to-Frame a vbat_uv ov none = search (frames) depth 24
  tapered_to-Frame a vbat_uv ov (some t) = taper-Frame a vbat_uv ov t

  prepare_near_float-Frame : (a : Bool) → Frame (prepare_near_float_for_charge io a)
  unfolding prepare_near_float_for_charge
  prepare_near_float-Frame a =
      search (frames, battery_uv-Frame, read_adc-Frame, tapered_to-Frame) depth 24

  arm_mask-Frame : Frame (arm_5v_bypass_fault_mask io)
  unfolding arm_5v_bypass_fault_mask
  arm_mask-Frame = search (frames, clear_latched_faults-Frame) depth 24

  state_for-open : (m : OpMode) → is_closed (state_for m) ≡ false
  state_for-open OpMode.switching = refl
  state_for-open OpMode.bypass = refl
  state_for-open OpMode.standby = refl
  state_for-open OpMode.unknown = refl

configured-Frame :
    {B : Type 0} → Frame {B = B} (modify (λ p. record p { state = PumpState.configured }))
configured-Frame =
    modify-Frame (λ p. record p { state = PumpState.configured }) (λ p. refl) (λ p e. refl)

module _ {B : Type 0} (io : RegisterBus B) (delay : B → B) where
  ruleset parts = (
    frames, battery_uv-Frame, read_adc-Frame, set_op_mode-Frame, settle_and_read_status-Frame,
    clear_latched_faults-Frame, prepare_near_float-Frame, configured-Frame,
  )

  recover_masked-Frame : Frame (recover_masked io delay)
  unfolding recover_masked
  recover_masked-Frame =
      search
        (
          parts,
          arm_mask-Frame,
          modify-Frame (λ p. record p { bypass_stage = 3 }) (λ p. refl) (λ p e. e),
        )
        depth 24

  recover_mode-Frame : (b : Bool) → Frame (recover_mode io delay b)
  unfolding recover_mode
  recover_mode-Frame false = search (frames)
  recover_mode-Frame true = search (parts, recover_masked-Frame) depth 24

  recover_reset-Frame : (v : ℕ) → Frame (recover_reset io delay v)
  unfolding recover_reset
  recover_reset-Frame v =
      then-Frame (modify (λ p. record p { por_vin_uv = some v })) _
        (modify-Frame (λ p. record p { por_vin_uv = some v }) (λ p. refl) (λ p e. e))
        (then-Frame (ignore (soft_reset io)) _ (ignore-Frame (soft_reset io) (soft_reset-Frame io))
          (then-Frame (modify (λ p. record p { bypass_stage = 2; bus = delay p.bus })) _
            (modify-Frame (λ p. record p { bypass_stage = 2; bus = delay p.bus }) (λ p. refl)
              (λ p e. e))
            (search (parts, configure-Frame, recover_mode-Frame) depth 24)))

  recover_within_budget-Frame : (v : ℤ) (o : Option ℕ) → Frame (recover_within_budget io delay v o)
  unfolding recover_within_budget
  recover_within_budget-Frame v none = recover_reset-Frame (pos_part v)
  recover_within_budget-Frame v (some prev) = search (parts, recover_reset-Frame) depth 24

  recover_5v_bypass-Frame : Frame (recover_5v_bypass io delay)
  unfolding recover_5v_bypass
  recover_5v_bypass-Frame = search (parts, recover_within_budget-Frame) depth 24

  stopped-Frame :
      (m : OpMode)
      → Frame {B = B} (modify (λ p. record p { op_mode = m; state = PumpState.configured }))
  stopped-Frame m =
      modify-Frame (λ p. record p { op_mode = m; state = PumpState.configured }) (λ p. refl)
        (λ p e. refl)

  stop_charging-Frame : Frame (stop_charging io delay)
  unfolding stop_charging
  stop_charging-Frame =
      search
        (
          parts,
          modify-Frame (λ p. record p { por_vin_uv = none }) (λ p. refl) (λ p e. e),
          stopped-Frame,
        )
        depth 24

  prepare_elevated-Frame : (want : OpMode) → Frame (prepare_elevated io delay want)
  unfolding prepare_elevated
  prepare_elevated-Frame want = search (parts) depth 24

  or_recover-config :
      (o : Result OpMode PumpError × Pump B) → (or_recover io delay o).1.config ≡ o.1.config
  or_recover-config (ok m, q) = refl
  or_recover-config (err e, q) = recover_5v_bypass-Frame.config_kept q

  or_recover-open :
      (o : Result OpMode PumpError × Pump B)
      → is_closed o.1.state ≡ false
      → is_closed (or_recover io delay o).1.state ≡ false
  or_recover-open (ok m, q) e = e
  or_recover-open (err x, q) e = recover_5v_bypass-Frame.open_kept q e

  request_mode-Frame : (want : OpMode) → Frame (request_mode io delay want)
  unfolding request_mode
  request_mode-Frame OpMode.switching = enable_switching-Frame io
  request_mode-Frame OpMode.bypass = record {
    config_kept = λ p.
        or_recover-config (enable_bypass io (record p { bypass_stage = 1 }))
        ∙ (enable_bypass-Frame io).config_kept (record p { bypass_stage = 1 });
    open_kept = λ p e.
        or_recover-open (enable_bypass io (record p { bypass_stage = 1 }))
          ((enable_bypass-Frame io).open_kept (record p { bypass_stage = 1 }) e);
  }
  request_mode-Frame OpMode.standby = search (frames)
  request_mode-Frame OpMode.unknown = search (frames)

  conclude-Frame : (want : OpMode) (r : Result OpMode PumpError) → Frame (conclude io delay want r)
  unfolding conclude
  conclude-Frame want (ok m) =
      search
        (
          parts,
          modify-Frame (λ p. record p { op_mode = m; state = state_for m }) (λ p. refl)
              (λ p e. state_for-open io m),
        )
        depth 24
  conclude-Frame want (err e) = search (parts) depth 24

  start_mode-Frame : (o : Option OpMode) → Frame (start_mode io delay o)
  unfolding start_mode
  start_mode-Frame none = search (parts) depth 24
  start_mode-Frame (some want) =
      search
        (
          parts,
          prepare_elevated-Frame,
          request_mode-Frame,
          conclude-Frame,
          modify-Frame (λ p. record p { bypass_stage = 0 }) (λ p. refl) (λ p e. e),
        )
        depth 24

  start_charging-Frame : Frame (start_charging io delay)
  unfolding start_charging
  start_charging-Frame = search (parts, start_mode-Frame) depth 24

  set_charging-Frame : (on : Bool) → Frame (set_charging io delay on)
  unfolding set_charging
  set_charging-Frame on = search (parts, start_charging-Frame, stop_charging-Frame) depth 24

  -- Switching the charge on or off, with the taper, the recovery of the 5 V fallback and every
  -- failure on the way, leaves the settings as they were.
  pub set_charging-config :
      (on : Bool) (p : Pump B) → (set_charging io delay on p).1.config ≡ p.config
  set_charging-config on = (set_charging-Frame on).config_kept

  -- Switching the charge on or off never leaves an open session closed.
  pub set_charging-open :
      (on : Bool) (p : Pump B)
      → is_closed p.state ≡ false
      → is_closed (set_charging io delay on p).1.state ≡ false
  set_charging-open on = (set_charging-Frame on).open_kept
