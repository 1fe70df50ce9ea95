-- ===== src/Ln8000/Window/Float.antt =====
-- The soft float voltage and the detection of the converter rail.
use nabu_charger.Prelude.{ℕ, ◌+◌, ◌/◌, ◌≤◌, ◌<◌, ◌≡◌, ◌↔◌, true, false, arith, min, u32_max}
use nabu_charger.Ln8000.Window.{
  soft_float_for_vbat, vin_is_doubled_vbat, vbat_tracks_converter_rail, vbat_near_float_with_vin,
}

-- The raised float never passes 4.5 V, and short of that cap it reaches both the profile's float
-- and the cell plus 80 mV.
soft_float_bounds :
    (profile vbat : ℕ)
    → vbat ≤ u32_max
    → (soft_float_for_vbat profile vbat ≤ 4_500_000)
      × (min profile 4_500_000 ≤ soft_float_for_vbat profile vbat)
      × (min (vbat + 80_000) 4_500_000 ≤ soft_float_for_vbat profile vbat)
unfolding soft_float_for_vbat
soft_float_bounds profile vbat h = ground arith

-- An input counts as the doubled cell voltage exactly when a nonzero cell reading lies within 80 mV
-- of half of it.
doubled_iff :
    (vbat vin : ℕ)
    → vin ≤ u32_max
    → (vin_is_doubled_vbat vbat vin ≡ true)
      ↔ ((0 < vbat) × (vin / 2 ≤ vbat + 80_000) × (vbat ≤ vin / 2 + 80_000))
unfolding vin_is_doubled_vbat
doubled_iff vbat vin h = ground arith

-- A latched overvoltage puts the pack near the float whatever the readings say; without it, a cell
-- reading that follows half of an input of 8 V or more never does.
near_float_ov_or_credible :
    (vbat float vin : ℕ)
    → (vbat_near_float_with_vin vbat float true vin ≡ true)
      × (vbat_tracks_converter_rail vbat vin ≡ true
          → vbat_near_float_with_vin vbat float false vin ≡ false)
unfolding vbat_near_float_with_vin vbat_tracks_converter_rail
near_float_ov_or_credible vbat float vin = ground arith
