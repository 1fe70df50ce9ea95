-- ===== src/Kmdf/Hvdcp/Band/Target.antt =====
-- The bus voltage that is aimed at: it admits 2:1, lies in the transfer band, and is reached by pulses.
use nabu_charger.Prelude.{ℕ, ◌+◌, ◌≤◌, ◌<◌, ◌≡◌, some, pos, arith}
use nabu_charger.Ln8000.Mode.{switching}
use nabu_charger.Ln8000.Window
use nabu_charger.Kmdf.Hvdcp.Band.{
  target_vbus_uv, trim_target_uv, window_floor_uv, estimated_vbus_uv, pulses_toward_target,
}

pub target_vbus-bounds :
    (vbat_uv : ℕ) → (6_000_000 ≤ target_vbus_uv vbat_uv) × (target_vbus_uv vbat_uv ≤ 9_600_000)
unfolding target_vbus_uv
target_vbus-bounds vbat_uv = (ground arith, ground arith)

admits :
    (vbat_uv : ℕ)
    → 0 < vbat_uv
    → vbat_uv ≤ 4_675_000
    → Window.charge_mode (pos (target_vbus_uv vbat_uv)) vbat_uv ≡ some switching
unfolding target_vbus_uv Window.charge_mode Window.min_vin_for_switching_uv Window.window_target_uv
    Window.non_negative_uv
admits vbat_uv some_pack low = ground arith

in_band :
    (vbat_uv : ℕ)
    → 2_850_000 ≤ vbat_uv
    → vbat_uv ≤ 4_650_000
    → (window_floor_uv vbat_uv ≤ target_vbus_uv vbat_uv)
      × (target_vbus_uv vbat_uv ≤ trim_target_uv vbat_uv)
unfolding target_vbus_uv trim_target_uv window_floor_uv Window.window_target_uv
    Window.window_floor_uv Window.window_top_uv
in_band vbat_uv high low = (ground arith, ground arith)

reached :
    (vbat_uv : ℕ)
    → (target_vbus_uv vbat_uv ≤ estimated_vbus_uv (pulses_toward_target vbat_uv))
      × (estimated_vbus_uv (pulses_toward_target vbat_uv) < target_vbus_uv vbat_uv + 200_000)
unfolding estimated_vbus_uv pulses_toward_target
reached vbat_uv = let (lo, hi) = target_vbus-bounds vbat_uv in (ground arith, ground arith)

-- For a cell from 2.85 V to 4.65 V the target admits 2:1 and lies between the bottom and the top of the
-- transfer band; and the pulses towards it, counted from 5 V, reach it by less than one step more.
pub target_vbus-fits :
    (vbat_uv : ℕ)
    → 2_850_000 ≤ vbat_uv
    → vbat_uv ≤ 4_650_000
    → (Window.charge_mode (pos (target_vbus_uv vbat_uv)) vbat_uv ≡ some switching)
      × (window_floor_uv vbat_uv ≤ target_vbus_uv vbat_uv)
      × (target_vbus_uv vbat_uv ≤ trim_target_uv vbat_uv)
      × (target_vbus_uv vbat_uv ≤ estimated_vbus_uv (pulses_toward_target vbat_uv))
      × (estimated_vbus_uv (pulses_toward_target vbat_uv) < target_vbus_uv vbat_uv + 200_000)
target_vbus-fits vbat_uv high low =
    let (above, below) = in_band vbat_uv high low in
    let (up_to, within) = reached vbat_uv in
    (admits vbat_uv (omega arith) (omega arith), above, below, up_to, within)
