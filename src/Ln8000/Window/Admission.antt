-- ===== src/Ln8000/Window/Admission.antt =====
-- Which charge mode an input admits.
use nabu_charger.Prelude.{ℕ, ◌+◌, ◌*◌, ◌≤◌, ◌≡◌, ◌↔◌, some, true, ℤ, pos, ◌≤ℤ◌, ◌<ℤ◌, arith}
use nabu_charger.Ln8000.Mode.{switching, bypass}
use nabu_charger.Ln8000.Window.{
  charge_mode, min_vin_for_switching_uv, non_negative_uv, bypass_allowed_by_vin, window_target_uv,
  vin_in_switching_window, window_floor_uv, window_top_uv,
}

-- The 2:1 gate of any input an `i32` can hold is 6 V and twice the cell plus 250 mV: the saturating
-- arithmetic of the gate never lets a lower input in.
pub charge_mode-switching_iff :
    (vin : ℤ) (vbat : ℕ)
    → vin <ℤ pos 2147483648
    → (charge_mode vin vbat ≡ some switching)
      ↔ ((pos 6_000_000 ≤ℤ vin) × (pos (2 * vbat + 250_000) ≤ℤ vin))
unfolding charge_mode min_vin_for_switching_uv non_negative_uv
charge_mode-switching_iff vin vbat h = ground arith

-- 1:1 is chosen on exactly the inputs from 4.2 V up to but not including 6 V, whatever the cell
-- reads, so a raised input never reaches the battery directly.
pub charge_mode-bypass_iff :
    (vin : ℤ) (vbat : ℕ)
    → (charge_mode vin vbat ≡ some bypass) ↔ ((pos 4_200_000 ≤ℤ vin) × (vin <ℤ pos 6_000_000))
unfolding charge_mode min_vin_for_switching_uv non_negative_uv
charge_mode-bypass_iff vin vbat = ground arith

-- The gate of every caller that may enable 1:1 is that same window.
pub bypass_allowed_iff :
    (vin : ℤ) (vbat : ℕ)
    → (bypass_allowed_by_vin vin vbat ≡ true) ↔ ((pos 4_200_000 ≤ℤ vin) × (vin <ℤ pos 6_000_000))
unfolding bypass_allowed_by_vin charge_mode min_vin_for_switching_uv non_negative_uv
bypass_allowed_iff vin vbat = ground arith

-- Where the bus policy aims, the pump may start: for a cell between 2.85 V and 1 kV the target
-- voltage lies inside the transfer band and is admitted to 2:1.
window_target_admitted :
    (vbat : ℕ)
    → 2_850_000 ≤ vbat
    → vbat ≤ 1_000_000_000
    → (charge_mode (pos (window_target_uv vbat)) vbat ≡ some switching)
      × (vin_in_switching_window (pos (window_target_uv vbat)) vbat ≡ true)
unfolding charge_mode min_vin_for_switching_uv non_negative_uv window_target_uv
    vin_in_switching_window window_floor_uv window_top_uv
window_target_admitted vbat lo hi = ground arith
