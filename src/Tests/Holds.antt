-- ===== src/Tests/Holds.antt =====
-- The charge indicator's flags over a few ticks.
use nabu_charger.Prelude.{◌≡◌, ◌↔◌, refl, true, false, some, none, [], ◌∷◌, arith}
use nabu_charger.Ln8000.Battery.{Hold}
use nabu_charger.Ln8000.Battery.Trend.{SocHistory, trend_after, RoseAt, rising-RoseAt}
use nabu_charger.Ln8000.Battery.Holding.{History, held_after, AllWithin, held-expires_iff}
use nabu_charger.Ln8000.Battery.Presence.{Tick}
use nabu_charger.Ln8000.Battery.Release.{UnplugHistory}

abbrev up : Hold
up = record { held = true; last_true_ms = 1_000; true_run = 0; front_run = 2 }

abbrev two_false : History
two_false = (some false, 5_000) ∷ (none, 4_000) ∷ (some false, 2_000) ∷ []

held-expires_iff_example :
    ((held_after 8_000 up two_false).held ≡ true) ↔ AllWithin 8_000 1_000 two_false
held-expires_iff_example =
    held-expires_iff 8_000 up two_false refl (ground arith, (ground arith, (ground arith, tt)))

abbrev lone_true : History
lone_true = (some false, 5_000) ∷ (some true, 4_000) ∷ (some false, 2_000) ∷ []

abbrev pair : History
pair = (some true, 2_000) ∷ (some true, 1_000) ∷ []

abbrev climb : SocHistory
climb = (51, 3_000) ∷ (51, 2_000) ∷ (50, 1_000) ∷ []

rising-RoseAt_example :
    ((trend_after climb).rising ≡ true) ↔ RoseAt (trend_after climb).last_rise_ms climb
rising-RoseAt_example = rising-RoseAt climb

abbrev brick : Tick
brick = record {
  vbus_uv = 5_000_000;
  vbat_uv = 4_000_000;
  iin_ua = 500_000;
  vac_unplug = true;
  usable = true;
}

abbrev gone : Tick
gone = record {
  vbus_uv = 3_900_000;
  vbat_uv = 4_000_000;
  iin_ua = 0;
  vac_unplug = true;
  usable = true;
}

abbrev asleep : Tick
asleep = record { vbus_uv = 0; vbat_uv = 0; iin_ua = 0; vac_unplug = false; usable = false }

abbrev unplugged : UnplugHistory
unplugged = (true, 0) ∷ (true, 0) ∷ (true, 0) ∷ []
