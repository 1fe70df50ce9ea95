-- ===== src/Ln8000/Pump/Modes.antt =====
-- Asking the chip for a mode and believing only its status (crates/ln8000/src/driver.rs).
pub mod Confirmed
use nabu_charger.Prelude.{
  ℕ, zero, suc, Bool, true, false, not, ◌&&◌, if◌then◌else◌, Result, ok, err, ℤ, pos, pos_part,
}
use nabu_charger.Ln8000.Error.{PumpError, mode_not_reached, bypass_needs_five_volt_vin}
use nabu_charger.Ln8000.Mode.{OpMode, unknown, standby, bypass, switching, mode_code, mode_eq}
use nabu_charger.Ln8000.Bus.{RegisterBus}
use nabu_charger.Ln8000.Window.{bypass_allowed_by_vin}
use nabu_charger.Ln8000.Status.{Status, vin, vbat}
use nabu_charger.Ln8000.Pump.{
  Pump, PumpState, Op, pure, fail, or_value, modify, branch, ◌>>=◌, ◌>>◌, read_adc,
}
use nabu_charger.Ln8000.Pump.Setup.{set_op_mode, status}

module _ {B : Type 0} (io : RegisterBus B) where
  abbrev pub settled : Status → Bool
  settled s = not (mode_eq s.op_mode unknown) && not (mode_eq s.op_mode standby)

  -- The rounds of the loop that are left, and the last snapshot.
  unfoldable pub settle_rounds : ℕ → Status → Op B Status
  settle_rounds zero last = pure last
  settle_rounds (suc rounds) last = do
    now ← status io
    branch (settled now) (pure now) (settle_rounds rounds now)

  unfoldable pub settle_and_read_status : Op B Status
  settle_and_read_status = do settle_rounds 3 (← status io)

  unfoldable pub enable_switching : Op B OpMode
  enable_switching = do
    set_op_mode io switching
    now ← settle_and_read_status
    branch (mode_eq now.op_mode switching)
        (do modify (λ p. record p { state = PumpState.switching }); pure now.op_mode)
        (fail (mode_not_reached (mode_code switching) now.sys_sts))

  -- The battery voltage as the mode decisions take it: what cannot be read counts as zero.
  unfoldable pub battery_uv : Op B ℕ
  battery_uv = do vbat_uv ← or_value (read_adc io vbat) (pos 0); pure (pos_part vbat_uv)

  unfoldable pub enable_bypass : Op B OpMode
  enable_bypass = do
    vin_uv ← read_adc io vin
    vbat_uv ← battery_uv
    branch (bypass_allowed_by_vin vin_uv vbat_uv)
        (do
          set_op_mode io bypass
          now ← settle_and_read_status
          branch (mode_eq now.op_mode bypass)
              (do modify (λ p. record p { state = PumpState.configured }); pure now.op_mode)
              (fail (mode_not_reached (mode_code bypass) now.sys_sts)))
        (fail (bypass_needs_five_volt_vin vin_uv))

  abbrev first_error : Result OpMode PumpError → PumpError → Result OpMode PumpError
  first_error (ok mode) e = ok mode
  first_error (err later) e = err e

  unfoldable pub enable_switching_or_bypass : Op B OpMode
  enable_switching_or_bypass p =
      let (r, q) = enable_switching p in
      elim r [
        | ok mode ↦ (ok mode, q)
        | err e ↦ let (s, q') = enable_bypass q in (first_error s e, q')
      ]
