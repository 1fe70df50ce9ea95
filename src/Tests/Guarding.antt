-- ===== src/Tests/Guarding.antt =====
-- The guard's decisions and what the driver does with them.
use nabu_charger.Prelude.{ℕ, ◌%◌, ◌≤◌, ◌<◌, ◌≡◌, ◌↔◌, ◌⊎◌, refl, true, false, some, none, ℤ, pos}
use nabu_charger.Ln8000.Mode.{switching}
use nabu_charger.Ln8000.Window.{vbat_tracks_converter_rail, vin_is_doubled_vbat}
use nabu_charger.Ln8000.Codes.{encode_iin_limit, decode_iin_limit}
use nabu_charger.Ln8000.Session.{TelemetrySample}
use nabu_charger.Ln8000.Guard.{
  standard, is_consistent, apply_parameter, evaluate, evaluate_applied, evaluate_current, cap_to,
  capped_by, die_temp_usable, restore_iin_ua, band_iin_ua, no_change, reduce_current,
  restore_current,
}
use nabu_charger.Ln8000.Guard.Parameters.{apply_parameter-atomic}
use nabu_charger.Ln8000.Guard.Settling.{
  evaluate-reduce_settles, evaluate-restore_settles, evaluate-restore_on_grid,
}

abbrev sample : ℤ → ℕ → TelemetrySample
sample die_temp_dc vbat_uv = record {
  ts_ms = 1_000;
  vbat_uv = vbat_uv;
  vbus_uv = 9_000_000;
  iin_ua = 1_500_000;
  die_temp_dc = die_temp_dc;
  op_mode = switching;
  input_present = true;
  vbat_valid = true;
  die_temp_valid = true;
}

abbrev hot : TelemetrySample
hot = sample (pos 560) 4_000_000

abbrev cool : TelemetrySample
cool = sample (pos 300) 4_000_000

abbrev strikes : ℕ
strikes = 1

apply_parameter-atomic_example :
    let (l', accepted) = apply_parameter standard "IinTargetUa" 1_500_000 in
    (((accepted ≡ false) × (l' ≡ standard)) ⊎ ((accepted ≡ true) × (is_consistent l' ≡ true)))
    × (l'.iin_profile_ua ≡ standard.iin_profile_ua)
apply_parameter-atomic_example = apply_parameter-atomic standard "IinTargetUa" 1_500_000

abbrev limit : ℕ
limit = 2_000_000

abbrev over : ℕ
over = 2_500_000

abbrev under : ℕ
under = 1_000_000

reduces : evaluate hot standard (some over) none ≡ reduce_current limit "die_temp_reduce"
unfolding evaluate evaluate_applied evaluate_current cap_to die_temp_usable band_iin_ua
    vbat_tracks_converter_rail vin_is_doubled_vbat
reduces = refl

restores : evaluate cool standard (some under) none ≡ restore_current limit "reduce_band_exit"
unfolding evaluate evaluate_applied evaluate_current cap_to die_temp_usable restore_iin_ua
    vbat_tracks_converter_rail vin_is_doubled_vbat
restores = refl

evaluate-reduce_settles_example :
    (limit < over) × (evaluate hot standard (some limit) none ≡ no_change)
evaluate-reduce_settles_example =
    evaluate-reduce_settles hot standard none over limit "die_temp_reduce" reduces

evaluate-restore_settles_example :
    (under < limit)
    × (limit ≤ standard.iin_max_ua)
    × (limit ≡ capped_by none (restore_iin_ua standard))
    × (evaluate cool standard (some limit) none ≡ no_change)
unfolding is_consistent
evaluate-restore_settles_example =
    evaluate-restore_settles cool standard none under limit "reduce_band_exit" refl restores

evaluate-restore_on_grid_example :
    (evaluate cool standard (some (decode_iin_limit 40)) none ≡ no_change)
    ↔ ((limit % 50_000 ≡ 0) × (limit ≤ 6_350_000))
unfolding encode_iin_limit
evaluate-restore_on_grid_example =
    evaluate-restore_on_grid cool standard none under limit 40 "reduce_band_exit" restores refl
