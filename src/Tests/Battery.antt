-- ===== src/Tests/Battery.antt =====
-- The published battery of crates/ln8000-kmdf/src/battery.rs on a short history.
use nabu_charger.Prelude.{◌≡◌, refl, true, false, List, [], ◌∷◌, arith}
use nabu_charger.Kmdf.Battery.{Telemetry, gauge_percent, soc_percent, power_flags}
use nabu_charger.Kmdf.Battery.Told.{
  Event, sampled, missed, ticked, happens, history, fresh, Told, tick-Told,
}

abbrev plugged : Telemetry
plugged = record {
  vbat_uv = 3_900_000;
  vbus_uv = 5_000_000;
  iin_ua = 1_000_000;
  iin_peak_ua = 1_000_000;
  vac_unplug = false;
  input_readings_usable = true;
  soc_rising = true;
  now_ms = 1_000;
}

abbrev morning : List Event
morning = sampled 12 500 (omega arith) ∷ missed ∷ ticked plugged ∷ []

tick-Told_example : Told (happens (history fresh morning) (ticked plugged))
tick-Told_example = tick-Told morning plugged

one_step_is_one_percent : gauge_percent 1 ≡ 1
unfolding gauge_percent
one_step_is_one_percent = refl

nearly_full : gauge_percent 254 ≡ 99
unfolding gauge_percent
nearly_full = refl

half_way : soc_percent 3_875_000 ≡ 50
unfolding soc_percent
half_way = refl

unknown_is_not_critical : power_flags false false 4_294_967_295 ≡ 2
unfolding power_flags
unknown_is_not_critical = refl
