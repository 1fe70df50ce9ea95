-- ===== src/Ln8000/Window.antt =====
-- The transfer band, the admission of a charge mode and the taper band near the float voltage
-- (crates/ln8000/src/encoding.rs).
pub mod Admission
pub mod Float
use nabu_charger.Prelude.{
  ℕ, ◌-◌, ◌/◌, Bool, true, false, ◌&&◌, ◌||◌, not, Option, none, some, ℤ, pos, ltb, leb, ◌==◌,
  if◌then◌else◌, sat_add, sat_mul, ltb_ℤ, leb_ℤ, unsigned_abs,
}
use nabu_charger.Ln8000.Mode.{OpMode, bypass, switching}

abbrev pub switching_min_vin_uv : ℕ
switching_min_vin_uv = 8_000_000

abbrev pub elevated_min_vin_uv : ℕ
elevated_min_vin_uv = 6_000_000

abbrev pub switching_headroom_uv : ℕ
switching_headroom_uv = 250_000

unfoldable pub min_vin_for_switching_uv : ℕ → ℕ
min_vin_for_switching_uv vbat_uv =
    let pack_gate = sat_add (sat_mul vbat_uv 2) switching_headroom_uv in
    if ltb pack_gate elevated_min_vin_uv then elevated_min_vin_uv else pack_gate

abbrev pub switching_window_top_uv : ℕ
switching_window_top_uv = 400_000

abbrev pub switching_window_floor_uv : ℕ
switching_window_floor_uv = 200_000

abbrev pub switching_window_target_uv : ℕ
switching_window_target_uv = 300_000

unfoldable pub window_top_uv : ℕ → ℕ
window_top_uv vbat_uv = sat_add (sat_mul vbat_uv 2) switching_window_top_uv

unfoldable pub window_floor_uv : ℕ → ℕ
window_floor_uv vbat_uv = sat_add (sat_mul vbat_uv 2) switching_window_floor_uv

unfoldable pub window_target_uv : ℕ → ℕ
window_target_uv vbat_uv = sat_add (sat_mul vbat_uv 2) switching_window_target_uv

pub vin_in_switching_window : ℤ → ℕ → Bool
vin_in_switching_window vin_uv vbat_uv =
    if leb_ℤ vin_uv (pos 0) || vbat_uv == 0
    then false
    else let vin = unsigned_abs vin_uv in
      leb (window_floor_uv vbat_uv) vin && leb vin (window_top_uv vbat_uv)

unfoldable pub non_negative_uv : ℤ → ℕ
non_negative_uv vin_uv = if ltb_ℤ (pos 0) vin_uv then unsigned_abs vin_uv else 0

abbrev pub iin_useful_ua : ℕ
iin_useful_ua = 300_000

transfer_is_useful : ℕ → Bool
transfer_is_useful max_iin_ua = ltb iin_useful_ua max_iin_ua

should_walk_window : Bool → Bool → Bool → Bool
should_walk_window dead transferring below_band = dead || (not transferring || below_band)

stop_running_charge : Bool → Bool → Bool
stop_running_charge admissible transferring = not admissible && not transferring

abbrev pub charge_min_vin_uv : ℕ
charge_min_vin_uv = 4_200_000

abbrev pub nabu_vbat_float_uv : ℕ
nabu_vbat_float_uv = 4_470_000

abbrev pub vbat_float_soft_headroom_uv : ℕ
vbat_float_soft_headroom_uv = 80_000

abbrev pub vbat_float_soft_max_uv : ℕ
vbat_float_soft_max_uv = 4_500_000

abbrev pub vbat_taper_margin_uv : ℕ
vbat_taper_margin_uv = 100_000

abbrev pub vbat_taper_iin_ua : ℕ
vbat_taper_iin_ua = 1_200_000

unfoldable pub soft_float_for_vbat : ℕ → ℕ → ℕ
soft_float_for_vbat profile_float_uv vbat_uv =
    let with_headroom = sat_add vbat_uv vbat_float_soft_headroom_uv in
    let raised = if ltb profile_float_uv with_headroom then with_headroom else profile_float_uv in
    if ltb vbat_float_soft_max_uv raised then vbat_float_soft_max_uv else raised

abbrev pub vbat_vin_half_slack_uv : ℕ
vbat_vin_half_slack_uv = 80_000

abbrev pub por_vin_tolerance_uv : ℕ
por_vin_tolerance_uv = 200_000

unfoldable pub vin_is_doubled_vbat : ℕ → ℕ → Bool
vin_is_doubled_vbat vbat_uv vin_uv =
    if vbat_uv == 0
    then false
    else let half = vin_uv / 2 in
      let lo = half - vbat_vin_half_slack_uv in
      let hi = sat_add half vbat_vin_half_slack_uv in leb lo vbat_uv && leb vbat_uv hi

unfoldable pub vbat_tracks_converter_rail : ℕ → ℕ → Bool
vbat_tracks_converter_rail vbat_uv vin_uv =
    if ltb vin_uv switching_min_vin_uv then false else vin_is_doubled_vbat vbat_uv vin_uv

vbat_reading_usable : Bool → ℕ → Bool
vbat_reading_usable read_ok vbat_uv = read_ok && ltb 0 vbat_uv

unfoldable pub vbat_near_float_with_vin : ℕ → ℕ → Bool → ℕ → Bool
vbat_near_float_with_vin vbat_uv float_uv vbat_ov_latched vin_uv =
    if vbat_ov_latched
    then true
    else if not (vin_uv == 0) && vbat_tracks_converter_rail vbat_uv vin_uv
    then false
    else leb (float_uv - vbat_taper_margin_uv) vbat_uv

unfoldable pub charge_mode : ℤ → ℕ → Option OpMode
charge_mode vin_uv vbat_uv =
    let headroom_ok = leb (min_vin_for_switching_uv vbat_uv) (non_negative_uv vin_uv) in
    if headroom_ok
    then some switching
    else if leb_ℤ (pos charge_min_vin_uv) vin_uv && ltb_ℤ vin_uv (pos elevated_min_vin_uv)
    then some bypass
    else none

abbrev is_bypass : Option OpMode → Bool
is_bypass (some OpMode.bypass) = true
is_bypass _ = false

unfoldable pub bypass_allowed_by_vin : ℤ → ℕ → Bool
bypass_allowed_by_vin vin_uv vbat_uv = is_bypass (charge_mode vin_uv vbat_uv)
