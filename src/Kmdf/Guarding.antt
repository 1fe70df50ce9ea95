-- ===== src/Kmdf/Guarding.antt =====
-- What the driver does with the guard's action: `apply_guard` of crates/ln8000-kmdf/src/lib.rs.
-- The log lines are left out.
pub mod Raised
use nabu_charger.Prelude.{ℕ, ℤ, sat_add}
use nabu_charger.Ln8000.Mode.{standby}
use nabu_charger.Ln8000.Bus.{RegisterBus}
use nabu_charger.Ln8000.Guard.{
  GuardLimits, GuardAction, no_change, reduce_current, restore_current, fallback_to_bypass, stop,
  BypassResolution, allowed, reduce, halt, resolve_bypass,
}
use nabu_charger.Ln8000.Pump.{Pump}
use nabu_charger.Ln8000.Pump.Setup.{set_op_mode, set_iin_limit}
use nabu_charger.Ln8000.Pump.Modes.{enable_bypass}

module _ {B : Type 0} (io : RegisterBus B) where
  resolved : BypassResolution → ℕ → Pump B → Pump B × ℕ
  resolved allowed strikes p = ((enable_bypass io p).1, 0)
  resolved (reduce to_ua reason) strikes p = ((set_iin_limit io to_ua p).1, sat_add strikes 1)
  resolved (halt reason) strikes p = ((set_op_mode io standby p).1, strikes)

  -- The pump and the counter of denied ticks afterwards.
  pub apply_guard : GuardAction → ℤ → ℕ → GuardLimits → ℕ → Pump B → Pump B × ℕ
  apply_guard no_change vin_uv vbat_uv limits strikes p = (p, 0)
  apply_guard (reduce_current to_ua reason) vin_uv vbat_uv limits strikes p =
      ((set_iin_limit io to_ua p).1, 0)
  apply_guard (restore_current to_ua reason) vin_uv vbat_uv limits strikes p =
      ((set_iin_limit io to_ua p).1, 0)
  apply_guard (fallback_to_bypass reason) vin_uv vbat_uv limits strikes p =
      resolved (resolve_bypass vin_uv vbat_uv strikes limits) strikes p
  apply_guard (stop reason) vin_uv vbat_uv limits strikes p = ((set_op_mode io standby p).1, 0)
