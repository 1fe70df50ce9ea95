-- ===== src/Ln8000/Guard.antt =====
-- Temperature and current protection (crates/ln8000/src/guard.rs).
pub mod Parameters
pub mod Decision
pub mod Settling
use Prim.Native.String.{String}
use text.Mathlib.Text.{◌==◌ as str_eq}
use nabu_charger.Prelude.{
  ℕ, ◌-◌, min, Bool, true, false, ◌&&◌, ◌||◌, not, Option, none, some, ltb, leb, if◌then◌else◌, ℤ,
  pos, ltb_ℤ, leb_ℤ, sat_sub_i32,
}
use nabu_charger.Ln8000.Window.{bypass_allowed_by_vin, vbat_tracks_converter_rail}
use nabu_charger.Ln8000.Session.{TelemetrySample}

abbrev pub vbat_reduce_hyst_uv : ℕ
vbat_reduce_hyst_uv = 50_000

abbrev pub temp_reduce_hyst_dc : ℕ
temp_reduce_hyst_dc = 30

abbrev pub die_temp_max_plausible_dc : ℕ
die_temp_max_plausible_dc = 1_250

pub record GuardLimits : Type 0 where
  pub temp_reduce_dc : ℤ
  pub temp_bypass_dc : ℤ
  pub temp_stop_dc : ℤ
  pub iin_max_ua : ℕ
  pub iin_target_ua : ℕ
  pub iin_floor_ua : ℕ
  pub iin_profile_ua : ℕ
  pub vbat_reduce_uv : ℕ

-- `GuardLimits::standard` and `GuardLimits::conservative`
abbrev pub standard : GuardLimits
standard = record {
  temp_reduce_dc = pos 550;
  temp_bypass_dc = pos 600;
  temp_stop_dc = pos 650;
  iin_max_ua = 3_500_000;
  iin_target_ua = 2_000_000;
  iin_floor_ua = 500_000;
  iin_profile_ua = 2_000_000;
  vbat_reduce_uv = 4_470_000;
}

abbrev pub conservative : GuardLimits
conservative = record {
  temp_reduce_dc = pos 400;
  temp_bypass_dc = pos 430;
  temp_stop_dc = pos 500;
  iin_max_ua = 1_500_000;
  iin_target_ua = 1_000_000;
  iin_floor_ua = 500_000;
  iin_profile_ua = 1_000_000;
  vbat_reduce_uv = 4_350_000;
}

unfoldable pub is_consistent : GuardLimits → Bool
is_consistent l =
    ltb_ℤ l.temp_reduce_dc l.temp_bypass_dc
    && (ltb_ℤ l.temp_bypass_dc l.temp_stop_dc
        && (leb l.iin_floor_ua l.iin_target_ua && leb l.iin_target_ua l.iin_max_ua))

unfoldable pub band_iin_ua : GuardLimits → ℕ
band_iin_ua l = if ltb l.iin_profile_ua l.iin_target_ua then l.iin_profile_ua else l.iin_target_ua

unfoldable pub restore_iin_ua : GuardLimits → ℕ
restore_iin_ua l =
    if ltb l.iin_max_ua l.iin_profile_ua
    then l.iin_max_ua
    else if ltb l.iin_profile_ua l.iin_floor_ua
    then l.iin_floor_ua
    else l.iin_profile_ua

-- `i32::try_from(value)` and the range of its success; `none` is a rejected value.
abbrev temp_in : ℕ → ℕ → ℕ → Option ℤ
temp_in lo hi value =
    if leb value 2147483647 && (leb lo value && leb value hi) then some (pos value) else none

abbrev number_in : ℕ → ℕ → ℕ → Option ℕ
number_in lo hi value = if leb lo value && leb value hi then some value else none

abbrev with_temp : Option ℤ → (ℤ → GuardLimits) → Option GuardLimits
with_temp none f = none
with_temp (some t) f = some (f t)

abbrev with_number : Option ℕ → (ℕ → GuardLimits) → Option GuardLimits
with_number none f = none
with_number (some v) f = some (f v)

-- The `match name` that both setters share: the limits with the named one replaced, or `none` for
-- an unknown name or a value out of its range.
unfoldable pub replaced : GuardLimits → String → ℕ → Option GuardLimits
replaced l name value =
    if str_eq name "TempReduceDc"
    then with_temp (temp_in 200 600 value) (λ t. record l { temp_reduce_dc = t })
    else if str_eq name "TempBypassDc"
    then with_temp (temp_in 200 650 value) (λ t. record l { temp_bypass_dc = t })
    else if str_eq name "TempStopDc"
    then with_temp (temp_in 250 700 value) (λ t. record l { temp_stop_dc = t })
    else if str_eq name "IinMaxUa"
    then with_number (number_in 100_000 6_850_000 value) (λ v. record l { iin_max_ua = v })
    else if str_eq name "IinTargetUa"
    then with_number (number_in 100_000 6_850_000 value) (λ v. record l { iin_target_ua = v })
    else if str_eq name "IinFloorUa"
    then with_number (number_in 100_000 6_850_000 value) (λ v. record l { iin_floor_ua = v })
    else if str_eq name "VbatReduceUv"
    then with_number (number_in 3_000_000 4_500_000 value) (λ v. record l { vbat_reduce_uv = v })
    else none

abbrev if_consistent : GuardLimits → Option GuardLimits → GuardLimits × Bool
if_consistent l none = (l, false)
if_consistent l (some candidate) = if is_consistent candidate then (candidate, true) else (l, false)

-- `apply_parameter` and `apply_parameter_lenient`, with the limits as they are left.
unfoldable pub apply_parameter : GuardLimits → String → ℕ → GuardLimits × Bool
apply_parameter l name value = if_consistent l (replaced l name value)

abbrev if_replaced : GuardLimits → Option GuardLimits → GuardLimits × Bool
if_replaced l none = (l, false)
if_replaced l (some l') = (l', true)

unfoldable pub apply_parameter_lenient : GuardLimits → String → ℕ → GuardLimits × Bool
apply_parameter_lenient l name value = if_replaced l (replaced l name value)

-- `no_change` is the source's `None`.
pub data GuardAction : Type 0 where
  no_change : GuardAction
  reduce_current : ℕ → String → GuardAction
  restore_current : ℕ → String → GuardAction
  fallback_to_bypass : String → GuardAction
  stop : String → GuardAction

unfoldable pub die_temp_usable : TelemetrySample → Bool
die_temp_usable s = s.die_temp_valid && leb_ℤ s.die_temp_dc (pos die_temp_max_plausible_dc)

unfoldable pub bypass_strikes_expired : TelemetrySample → GuardLimits → Bool
bypass_strikes_expired s l =
    die_temp_usable s && leb_ℤ s.die_temp_dc (sat_sub_i32 l.temp_bypass_dc temp_reduce_hyst_dc)

unfoldable pub cap_to : ℕ → ℕ → String → GuardAction
cap_to applied_iin_ua to_ua reason =
    if leb applied_iin_ua to_ua then no_change else reduce_current to_ua reason

abbrev pub capped_by : Option ℕ → ℕ → ℕ
capped_by (some deliberate) restore = min restore deliberate
capped_by none restore = restore

-- The current decisions of `evaluate`, once the setpoint is known and both channels are good.
unfoldable pub evaluate_current : TelemetrySample → GuardLimits → ℕ → Option ℕ → GuardAction
evaluate_current s l applied deliberate =
    let credible = not (vbat_tracks_converter_rail s.vbat_uv s.vbus_uv) in
    let restore = capped_by deliberate (restore_iin_ua l) in
    let temp_low = leb_ℤ s.die_temp_dc (sat_sub_i32 l.temp_reduce_dc temp_reduce_hyst_dc) in
    let vbat_low = not credible || leb s.vbat_uv (l.vbat_reduce_uv - vbat_reduce_hyst_uv) in
    if leb_ℤ l.temp_reduce_dc s.die_temp_dc
    then cap_to applied (band_iin_ua l) "die_temp_reduce"
    else if ltb l.iin_max_ua s.iin_ua
    then cap_to applied l.iin_target_ua "iin_over_limit"
    else if credible && leb l.vbat_reduce_uv s.vbat_uv
    then cap_to applied (band_iin_ua l) "vbat_reduce"
    else if leb restore applied
    then no_change
    else if temp_low && vbat_low
    then restore_current restore "reduce_band_exit"
    else no_change

unfoldable pub evaluate_applied : TelemetrySample → GuardLimits → Option ℕ → Option ℕ → GuardAction
evaluate_applied s l none deliberate = no_change
evaluate_applied s l (some applied) deliberate =
    if not (die_temp_usable s) || not s.vbat_valid
    then no_change
    else evaluate_current s l applied deliberate

unfoldable pub evaluate : TelemetrySample → GuardLimits → Option ℕ → Option ℕ → GuardAction
evaluate s l applied_iin_ua deliberate_iin_ua =
    if not s.input_present
    then no_change
    else if die_temp_usable s && leb_ℤ l.temp_stop_dc s.die_temp_dc
    then stop "die_temp_stop"
    else if die_temp_usable s && leb_ℤ l.temp_bypass_dc s.die_temp_dc
    then fallback_to_bypass "die_temp_bypass"
    else evaluate_applied s l applied_iin_ua deliberate_iin_ua

abbrev pub bypass_denied_strikes_before_stop : ℕ
bypass_denied_strikes_before_stop = 1

pub data BypassResolution : Type 0 where
  allowed : BypassResolution
  reduce : ℕ → String → BypassResolution
  halt : String → BypassResolution

unfoldable pub resolve_bypass : ℤ → ℕ → ℕ → GuardLimits → BypassResolution
resolve_bypass vin_uv vbat_uv denied_strikes l =
    if bypass_allowed_by_vin vin_uv vbat_uv
    then allowed
    else if leb bypass_denied_strikes_before_stop denied_strikes
    then halt "die_temp_bypass_no_vin_headroom"
    else reduce l.iin_floor_ua "die_temp_bypass_no_vin_headroom"
