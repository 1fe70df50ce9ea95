-- ===== src/Ln8000/Guard/Decision.antt =====
-- When the guard stops, falls back, reduces or restores.
use Prim.Native.String.{String}
use nabu_charger.Prelude.{
  ℕ, ◌<◌, ◌≡◌, ◌↔◌, ◌⊎◌, Bool, true, false, Option, none, some, ℤ, pos, neg, ◌≤ℤ◌, ◌<ℤ◌, arith,
}
use nabu_charger.Ln8000.Window.Admission.{bypass_allowed_iff}
use nabu_charger.Ln8000.Session.{TelemetrySample}
use nabu_charger.Ln8000.Guard.{
  GuardLimits, GuardAction, fallback_to_bypass, stop, evaluate, evaluate_current, evaluate_applied,
  is_consistent, die_temp_usable, bypass_strikes_expired, band_iin_ua, resolve_bypass, allowed,
  reduce, halt, cap_to,
}

-- Only the setpoint can come out of the current decisions.
abbrev pub is_current : GuardAction → Bool
is_current (stop _) = false
is_current (fallback_to_bypass _) = false
is_current _ = true

cap_to-is_current : (a t : ℕ) (r : String) → is_current (cap_to a t r) ≡ true
unfolding cap_to
cap_to-is_current a t r = ground arith

evaluate_current-is_current :
    (s : TelemetrySample) (l : GuardLimits) (applied : ℕ) (deliberate : Option ℕ)
    → is_current (evaluate_current s l applied deliberate) ≡ true
unfolding evaluate_current
evaluate_current-is_current s l applied deliberate = ground (
  arith,
  cap_to-is_current applied (band_iin_ua l) "die_temp_reduce",
  cap_to-is_current applied l.iin_target_ua "iin_over_limit",
  cap_to-is_current applied (band_iin_ua l) "vbat_reduce",
)

evaluate_applied-is_current :
    (s : TelemetrySample) (l : GuardLimits) (applied deliberate : Option ℕ)
    → is_current (evaluate_applied s l applied deliberate) ≡ true
unfolding evaluate_applied
evaluate_applied-is_current s l none deliberate = ground arith
evaluate_applied-is_current s l (some a) deliberate =
    ground (arith, evaluate_current-is_current s l a deliberate)

-- With power at the input, charging is stopped exactly on a usable die temperature at or above the
-- stop threshold, and 1:1 is demanded exactly on one below it that is at or above the bypass
-- threshold, whether or not the current setpoint is known.
pub evaluate-thermal_iff :
    (s : TelemetrySample) (l : GuardLimits) (applied deliberate : Option ℕ)
    → ((evaluate s l applied deliberate ≡ stop "die_temp_stop") ↔ (
        (s.input_present ≡ true) × (die_temp_usable s ≡ true) × (l.temp_stop_dc ≤ℤ s.die_temp_dc)))
      × ((evaluate s l applied deliberate ≡ fallback_to_bypass "die_temp_bypass") ↔ (
          (s.input_present ≡ true)
          × (die_temp_usable s ≡ true)
          × (l.temp_bypass_dc ≤ℤ s.die_temp_dc)
          × (s.die_temp_dc <ℤ l.temp_stop_dc)))
unfolding evaluate
evaluate-thermal_iff s l applied deliberate =
    ground (arith, evaluate_applied-is_current s l applied deliberate)

-- A sample that ends an overtemperature episode never demands 1:1 or a stop itself, so the strikes
-- are not cleared while they still count.
pub expired-mild :
    (s : TelemetrySample) (l : GuardLimits) (applied deliberate : Option ℕ)
    → neg 1_000 ≤ℤ l.temp_bypass_dc
    → is_consistent l ≡ true
    → bypass_strikes_expired s l ≡ true
    → is_current (evaluate s l applied deliberate) ≡ true
unfolding evaluate bypass_strikes_expired is_consistent
expired-mild s l applied deliberate lo c e =
    ground (arith, evaluate_applied-is_current s l applied deliberate)

-- A demand for 1:1 is granted exactly between 4.2 V and 6 V; outside, the first tick lowers the
-- current to the floor and every later one stops the charge, whatever the cell reads.
pub resolve_bypass-outcome :
    (vin : ℤ) (vbat strikes : ℕ) (l : GuardLimits)
    → let r = resolve_bypass vin vbat strikes l in
      ((pos 4_200_000 ≤ℤ vin) × (vin <ℤ pos 6_000_000) × (r ≡ allowed))
      ⊎ (((vin <ℤ pos 4_200_000) ⊎ (pos 6_000_000 ≤ℤ vin))
          × ((strikes ≡ 0) × (r ≡ reduce l.iin_floor_ua "die_temp_bypass_no_vin_headroom")
              ⊎ (0 < strikes) × (r ≡ halt "die_temp_bypass_no_vin_headroom")))
unfolding resolve_bypass
resolve_bypass-outcome vin vbat strikes l = ground (arith, bypass_allowed_iff vin vbat)
