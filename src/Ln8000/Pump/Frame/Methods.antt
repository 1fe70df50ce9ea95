-- ===== src/Ln8000/Pump/Frame/Methods.antt =====
-- No method of the charge path touches the settings or closes the session.
use Prim.Native.String.{String}
use nabu_charger.Prelude.{ℕ, zero, suc, ◌≡◌, refl, false}
use nabu_charger.Ln8000.Mode.{OpMode, unknown}
use nabu_charger.Ln8000.Bus.{RegisterBus}
use nabu_charger.Ln8000.Status.{Status}
use nabu_charger.Ln8000.Pump.{Pump, PumpState, modify, is_closed}
use nabu_charger.Ln8000.Pump.Frame.{Frame, frames, read_adc-Frame}
use nabu_charger.Ln8000.Pump.Setup.{
  set_op_mode, configure_protections, configure_thresholds, configure_watchdog_and_adc, configure,
  status, clear_latched_faults, write_iin_limit, soft_reset,
}
use nabu_charger.Ln8000.Pump.Modes.{
  settle_rounds, settle_and_read_status, enable_switching, enable_bypass, battery_uv,
}

module _ {B : Type 0} (f : Pump B → Pump B) where
  pub modify-Frame :
      ((p : Pump B) → (f p).config ≡ p.config)
      → ((p : Pump B) → is_closed p.state ≡ false → is_closed (f p).state ≡ false)
      → Frame (modify f)
  modify-Frame h k = record { config_kept = h; open_kept = k }

status_read-Frame :
    {B : Type 0} (m : OpMode) → Frame {B = B} (modify (λ p. record p { op_mode = m }))
status_read-Frame m = modify-Frame (λ p. record p { op_mode = m }) (λ p. refl) (λ p e. e)

module _ {B : Type 0} (io : RegisterBus B) where
  pub set_op_mode-Frame : (target : OpMode) → Frame (set_op_mode io target)
  unfolding set_op_mode
  set_op_mode-Frame target =
      search (frames, modify-Frame (λ p. record p { op_mode = target }) (λ p. refl) (λ p e. e))
        depth 24

  pub configure_protections-Frame : Frame (configure_protections io)
  unfolding configure_protections
  configure_protections-Frame = search (frames) depth 24

  pub configure_thresholds-Frame : Frame (configure_thresholds io)
  unfolding configure_thresholds
  configure_thresholds-Frame = search (frames) depth 24

  pub configure_watchdog_and_adc-Frame : Frame (configure_watchdog_and_adc io)
  unfolding configure_watchdog_and_adc
  configure_watchdog_and_adc-Frame = search (frames) depth 24

  -- `configure` changes the chip and the session state, never the settings.
  pub configure-Frame : Frame (configure io)
  unfolding configure
  configure-Frame =
      search
        (
          frames,
          set_op_mode-Frame,
          configure_protections-Frame,
          configure_thresholds-Frame,
          configure_watchdog_and_adc-Frame,
          modify-Frame (λ p. record p { state = PumpState.configured }) (λ p. refl) (λ p e. refl),
        )
        depth 24

  pub status-Frame : Frame (status io)
  unfolding status
  status-Frame = search (frames, status_read-Frame) depth 24

  pub clear_latched_faults-Frame : Frame (clear_latched_faults io)
  unfolding clear_latched_faults
  clear_latched_faults-Frame = search (frames) depth 24

  pub write_iin_limit-Frame : (ua : ℕ) (field : String) → Frame (write_iin_limit io ua field)
  unfolding write_iin_limit
  write_iin_limit-Frame ua field = search (frames) depth 24

  pub soft_reset-Frame : Frame (soft_reset io)
  unfolding soft_reset
  soft_reset-Frame =
      search
        (
          frames,
          modify-Frame (λ p. record p { state = PumpState.probed; op_mode = unknown }) (λ p. refl)
              (λ p e. refl),
        )
        depth 24

  pub settle_rounds-Frame : (n : ℕ) (last : Status) → Frame (settle_rounds io n last)
  unfolding settle_rounds
  settle_rounds-Frame zero last = search (frames) depth 24
  settle_rounds-Frame (suc n) last = search (frames, status-Frame, settle_rounds-Frame n) depth 24

  pub settle_and_read_status-Frame : Frame (settle_and_read_status io)
  unfolding settle_and_read_status
  settle_and_read_status-Frame = search (frames, status-Frame, settle_rounds-Frame) depth 24

  pub battery_uv-Frame : Frame (battery_uv io)
  unfolding battery_uv
  battery_uv-Frame = search (frames, read_adc-Frame) depth 24

  pub enable_switching-Frame : Frame (enable_switching io)
  unfolding enable_switching
  enable_switching-Frame =
      search
        (
          frames,
          set_op_mode-Frame,
          settle_and_read_status-Frame,
          modify-Frame (λ p. record p { state = PumpState.switching }) (λ p. refl) (λ p e. refl),
        )
        depth 24

  pub enable_bypass-Frame : Frame (enable_bypass io)
  unfolding enable_bypass
  enable_bypass-Frame =
      search
        (
          frames,
          read_adc-Frame,
          battery_uv-Frame,
          set_op_mode-Frame,
          settle_and_read_status-Frame,
          modify-Frame (λ p. record p { state = PumpState.configured }) (λ p. refl) (λ p e. refl),
        )
        depth 24
