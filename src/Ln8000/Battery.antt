-- ===== src/Ln8000/Battery.antt =====
-- The hysteresis of the published power state: the fuel-counter trend, the held flags and the raw
-- predicates of one telemetry tick (crates/ln8000/src/battery_policy.rs).
pub mod Trend
pub mod Holding
pub mod Presence
pub mod Release
use nabu_charger.Prelude.{
  ℕ, ◌+◌, ◌-◌, Bool, true, false, ◌&&◌, ◌||◌, not, Option, none, some, ltb, leb, if◌then◌else◌,
  sat_add, u8_max,
}
use nabu_charger.Ln8000.Window.{vin_is_doubled_vbat}

abbrev pub online_hold_ms : ℕ
online_hold_ms = 8_000

abbrev pub charging_hold_ms : ℕ
charging_hold_ms = 20_000

abbrev pub iin_charging_ua : ℕ
iin_charging_ua = 80_000

abbrev pub soc_rise_hold_ms : ℕ
soc_rise_hold_ms = 300_000

pub record SocTrend : Type 0 where
  pub prev_raw : ℕ
  pub rising : Bool
  pub last_rise_ms : ℕ

-- `SocTrend::new`
abbrev pub new_trend : SocTrend
new_trend = record { prev_raw = u8_max; rising = false; last_rise_ms = 0 }

-- `SocTrend::update`
pub update_trend : SocTrend → ℕ → ℕ → SocTrend
update_trend s raw now_ms =
    if ltb s.prev_raw raw
    then record { prev_raw = raw; rising = true; last_rise_ms = now_ms }
    else if ltb raw s.prev_raw
    then record { prev_raw = raw; rising = false; last_rise_ms = s.last_rise_ms }
    else record {
      prev_raw = raw;
      rising = s.rising && ltb (now_ms - s.last_rise_ms) soc_rise_hold_ms;
      last_rise_ms = s.last_rise_ms;
    }

abbrev pub hold_arm_run : ℕ
hold_arm_run = 2

abbrev pub hold_front_run : ℕ
hold_front_run = 1

pub record Hold : Type 0 where
  pub held : Bool
  pub last_true_ms : ℕ
  pub true_run : ℕ
  pub front_run : ℕ

-- `Hold::new` and `Hold::front_armed`
abbrev pub new_hold : Hold
new_hold = record { held = false; last_true_ms = 0; true_run = 0; front_run = hold_arm_run }

abbrev pub front_armed : Hold
front_armed = record { held = false; last_true_ms = 0; true_run = 0; front_run = hold_front_run }

-- `Hold::update`
unfoldable pub update_hold : Hold → Bool → ℕ → ℕ → Hold
update_hold s true now_ms hold_ms =
    let true_run = sat_add s.true_run 1 in
    let needed_run = if s.held then hold_arm_run else s.front_run in
    if leb needed_run true_run
    then record { held = true; last_true_ms = now_ms; true_run = true_run; front_run = s.front_run }
    else record {
      held = s.held;
      last_true_ms = s.last_true_ms;
      true_run = true_run;
      front_run = s.front_run;
    }
update_hold s false now_ms hold_ms =
    if s.held && ltb (now_ms - s.last_true_ms) hold_ms
    then record s { true_run = 0 }
    else record s { held = false; true_run = 0 }

-- `Hold::update_evidence`
unfoldable pub update_evidence : Hold → Option Bool → ℕ → ℕ → Hold
update_evidence s (some raw) now_ms hold_ms = update_hold s raw now_ms hold_ms
update_evidence s none now_ms hold_ms = s

pub charging_raw : Bool → ℕ → ℕ → Bool → Bool
charging_raw online_held iin_ua iin_peak_ua soc_rising =
    online_held && (leb iin_charging_ua iin_ua || (leb iin_charging_ua iin_peak_ua || soc_rising))

abbrev pub vbus_online_uv : ℕ
vbus_online_uv = 4_600_000

abbrev pub vbus_charging_min_uv : ℕ
vbus_charging_min_uv = 4_200_000

abbrev pub vbus_above_vbat_uv : ℕ
vbus_above_vbat_uv = 200_000

abbrev pub vbus_elevated_uv : ℕ
vbus_elevated_uv = 6_000_000

unfoldable pub is_reflection_tick : ℕ → ℕ → ℕ → Bool → Bool
is_reflection_tick vbus_uv vbat_uv iin_ua vac_unplug =
    if leb vbus_charging_min_uv vbus_uv && leb iin_charging_ua iin_ua
    then false
    else if vac_unplug
    then false
    else leb vbus_online_uv vbus_uv && vin_is_doubled_vbat vbat_uv vbus_uv

unfoldable pub online_raw : ℕ → ℕ → ℕ → Bool → Bool
online_raw vbus_uv vbat_uv iin_ua vac_unplug =
    if leb vbus_charging_min_uv vbus_uv && leb iin_charging_ua iin_ua
    then true
    else if vac_unplug
    then false
    else if is_reflection_tick vbus_uv vbat_uv iin_ua vac_unplug
    then false
    else if leb vbus_elevated_uv vbus_uv
    then true
    else if ltb vbus_uv vbus_charging_min_uv
    then false
    else if ltb 0 vbat_uv && ltb vbus_uv (sat_add vbat_uv vbus_above_vbat_uv)
    then false
    else true

unfoldable pub online_raw_with_evidence : ℕ → ℕ → ℕ → Bool → Bool → Option Bool
online_raw_with_evidence vbus_uv vbat_uv iin_ua vac_unplug input_readings_usable =
    if input_readings_usable
    then if is_reflection_tick vbus_uv vbat_uv iin_ua vac_unplug
      then none
      else some (online_raw vbus_uv vbat_uv iin_ua vac_unplug)
    else if vac_unplug
    then some false
    else none

abbrev pub unplug_release_run : ℕ
unplug_release_run = 3

pub unplug_release : Bool → ℕ → ℕ → Bool × ℕ
unplug_release vac_unplug iin_ua run =
    if not vac_unplug || leb iin_charging_ua iin_ua
    then (false, 0)
    else let run' = sat_add run 1 in (leb unplug_release_run run', run')

pub adc_wake_needed : Bool → Bool → Option Bool
adc_wake_needed input_readings_usable vac_unplug =
    if vac_unplug then some false else if not input_readings_usable then some true else none

abbrev pub fg_vbatt_min_plausible_uv : ℕ
fg_vbatt_min_plausible_uv = 2_500_000

abbrev pub fg_vbatt_max_plausible_uv : ℕ
fg_vbatt_max_plausible_uv = 4_600_000

pub fg_vbatt_plausible : ℕ → Bool
fg_vbatt_plausible uv = leb fg_vbatt_min_plausible_uv uv && leb uv fg_vbatt_max_plausible_uv

pub anchor_cell_vbat_uv : ℕ → ℕ → ℕ
unfolding fg_vbatt_plausible
anchor_cell_vbat_uv fg_uv pump_uv = if fg_vbatt_plausible fg_uv then fg_uv else pump_uv
