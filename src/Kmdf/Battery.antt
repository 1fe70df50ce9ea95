-- ===== src/Kmdf/Battery.antt =====
-- What the battery device of the Windows driver publishes (crates/ln8000-kmdf/src/battery.rs): its
-- statics as a record, the percentage, the power flags and the notification of the class driver.
-- The flags are disjoint bits, so their union is a sum.
pub mod Told
use nabu_charger.Prelude.{
  ℕ, ◌+◌, ◌-◌, ◌*◌, ◌/◌, Bool, true, false, ◌&&◌, ◌||◌, not, ◌==◌, Option, some, none, leb, ltb,
  if◌then◌else◌, sat_add, ℤ, pos, negsuc,
}
use nabu_charger.Ln8000.Battery.{
  SocTrend, new_trend, update_trend, Hold, new_hold, front_armed, update_hold, update_evidence,
  charging_raw, online_raw_with_evidence, unplug_release, online_hold_ms, charging_hold_ms,
}

abbrev pub battery_unknown_capacity : ℕ
battery_unknown_capacity = 4_294_967_295

abbrev pub soc_src_none : ℕ
soc_src_none = 0

abbrev pub soc_src_gauge : ℕ
soc_src_gauge = 1

abbrev pub soc_src_vbat : ℕ
soc_src_vbat = 2

abbrev pub battery_power_on_line : ℕ
battery_power_on_line = 1

abbrev pub battery_discharging : ℕ
battery_discharging = 2

abbrev pub battery_charging : ℕ
battery_charging = 4

abbrev pub battery_critical : ℕ
battery_critical = 8

-- `BATTERY_UNKNOWN_RATE as i32`
abbrev pub battery_unknown_rate : ℤ
battery_unknown_rate = negsuc 2_147_483_647

abbrev pub vbat_empty_uv : ℕ
vbat_empty_uv = 3_400_000

abbrev pub vbat_full_uv : ℕ
vbat_full_uv = 4_350_000

pub record Battery : Type 0 where
  pub class_attached : Bool
  pub last_pct : ℕ
  pub notified_pct : ℕ
  pub soc_src : ℕ
  pub gauge_fails : ℕ
  pub last_vbat_uv : ℕ
  pub last_vbus_uv : ℕ
  pub last_iin_ua : ℕ
  pub online_hold : Hold
  pub charging_hold : Hold
  pub unplug_run : ℕ
  pub soc_trend : SocTrend
  pub last_power_state : ℕ

abbrev pub at_load : Bool → Battery
at_load attached = record {
  class_attached = attached;
  last_pct = battery_unknown_capacity;
  notified_pct = battery_unknown_capacity;
  soc_src = soc_src_none;
  gauge_fails = 0;
  last_vbat_uv = 0;
  last_vbus_uv = 0;
  last_iin_ua = 0;
  online_hold = front_armed;
  charging_hold = new_hold;
  unplug_run = 0;
  soc_trend = new_trend;
  last_power_state = 0;
}

-- The percentage of a raw reading of the gauge.
unfoldable pub gauge_percent : ℕ → ℕ
gauge_percent raw =
    if raw == 255 then 100 else if raw == 0 then 0 else ((raw - 1) * 98 + 126) / 253 + 1

unfoldable pub set_gauge_raw : ℕ → ℕ → Battery → Battery
set_gauge_raw raw now_ms s = record s {
  last_pct = gauge_percent raw;
  soc_src = soc_src_gauge;
  gauge_fails = 0;
  soc_trend = update_trend s.soc_trend raw now_ms;
}

unfoldable pub note_gauge_failure : Battery → Battery
note_gauge_failure s = record s { gauge_fails = sat_add s.gauge_fails 1 }

unfoldable pub soc_percent : ℕ → ℕ
soc_percent vbat_uv =
    if leb vbat_uv vbat_empty_uv
    then 0
    else if leb vbat_full_uv vbat_uv
    then 100
    else (vbat_uv - vbat_empty_uv) * 100 / (vbat_full_uv - vbat_empty_uv)

pub record BatteryStatus : Type 0 where
  pub power_state : ℕ
  pub capacity : ℕ
  pub voltage : ℕ
  pub rate : ℤ

unfoldable pub power_flags : Bool → Bool → ℕ → ℕ
power_flags online charging pct =
    (if online then battery_power_on_line else 0)
    + ((if charging then battery_charging else if online then 0 else battery_discharging)
        + (if not (pct == battery_unknown_capacity) && leb pct 5 then battery_critical else 0))

unfoldable pub build_status : Battery → BatteryStatus × Battery
build_status s =
    let online = s.online_hold.held in
    let charging = s.charging_hold.held && online in
    let power = power_flags online charging s.last_pct in
    (
      record {
        power_state = power;
        capacity = s.last_pct;
        voltage = s.last_vbat_uv / 1000;
        rate =
            if charging
            then battery_unknown_rate
            else if online
            then pos 0
            else battery_unknown_rate;
      },
      record s { last_power_state = power },
    )

-- The arguments of `update_from_telemetry`.
pub record Telemetry : Type 0 where
  pub vbat_uv : ℕ
  pub vbus_uv : ℕ
  pub iin_ua : ℕ
  pub iin_peak_ua : ℕ
  pub vac_unplug : Bool
  pub input_readings_usable : Bool
  pub soc_rising : Bool
  pub now_ms : ℕ

abbrev pub raw_online : Telemetry → Option Bool
raw_online t =
    online_raw_with_evidence t.vbus_uv t.vbat_uv t.iin_ua t.vac_unplug t.input_readings_usable

unfoldable pub seen_offline : Option Bool → Bool
seen_offline (some online) = not online
seen_offline none = false

-- The estimate of the percentage from the cell, on a tick that speaks against an adapter.
unfoldable pub estimated : Telemetry → Battery → Battery
estimated t s =
    if ltb 0 t.vbat_uv && (not (s.soc_src == soc_src_gauge) && seen_offline (raw_online t))
    then record s { last_pct = soc_percent t.vbat_uv; soc_src = soc_src_vbat }
    else s

abbrev pub seen_cell : Telemetry → Battery → Battery
seen_cell t s = record s { last_vbat_uv = if ltb 0 t.vbat_uv then t.vbat_uv else s.last_vbat_uv }

-- The two held flags and the run of the hardware's verdict.
unfoldable pub held : Telemetry → Battery → Battery
held t s =
    let release = unplug_release t.vac_unplug t.iin_ua s.unplug_run in
    let online =
      if release.0
      then update_hold s.online_hold false t.now_ms 0
      else update_evidence s.online_hold (raw_online t) t.now_ms online_hold_ms in
    record s {
      unplug_run = release.1;
      online_hold = online;
      charging_hold =
          update_hold s.charging_hold (charging_raw online.held t.iin_ua t.iin_peak_ua t.soc_rising)
            t.now_ms charging_hold_ms;
      last_vbus_uv = t.vbus_uv;
      last_iin_ua = t.iin_ua;
    }

-- The notification of the class driver, given the power state before the tick: whether it is sent.
unfoldable pub notify_if_changed : ℕ → Battery → Bool × Battery
notify_if_changed prev_power s =
    if s.last_power_state == prev_power && s.last_pct == s.notified_pct
    then (false, s)
    else if s.class_attached
    then (true, record s { notified_pct = s.last_pct })
    else (false, s)

unfoldable pub update_from_telemetry : Telemetry → Battery → Bool × Battery
update_from_telemetry t s =
    notify_if_changed s.last_power_state (build_status (held t (estimated t (seen_cell t s)))).1
