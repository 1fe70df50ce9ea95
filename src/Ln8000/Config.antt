-- ===== src/Ln8000/Config.antt =====
-- The driver's settings, its profiles and the registry parameters (`PumpConfig`,
-- crates/ln8000/src/driver.rs).
pub mod Parameters
use Prim.Native.String.{String}
use text.Mathlib.Text.{◌==◌ as str_eq}
use nabu_charger.Prelude.{
  ℕ, ◌-◌, Bool, true, false, ◌&&◌, not, Option, none, some, leb, ◌==◌, if◌then◌else◌, Result, ok,
  err,
}
use nabu_charger.Ln8000.Regs
use nabu_charger.Ln8000.Error.{PumpError}
use nabu_charger.Ln8000.Mode.{WatchdogPeriod, sec10}
use nabu_charger.Ln8000.Codes.{encode_iin_limit}
use nabu_charger.Ln8000.Window.{nabu_vbat_float_uv}

pub record PumpConfig : Type 0 where
  pub vbat_float_uv : ℕ
  pub vac_ovp_uv : ℕ
  pub iin_limit_ua : ℕ
  pub ntc_alarm_cfg : ℕ
  pub watchdog_enabled : Bool
  pub watchdog_period : WatchdogPeriod
  pub auto_recovery : Bool
  pub verify_writes : Bool
  pub max_bus_retries : ℕ
  pub vbat_reg_disabled : Bool
  pub iin_ocp_disabled : Bool
  pub iin_reg_disabled : Bool
  pub tdie_prot_disabled : Bool
  pub tdie_reg_disabled : Bool
  pub tbus_mon_disabled : Bool
  pub tbat_mon_disabled : Bool

-- `Default for PumpConfig`
abbrev pub default_config : PumpConfig
default_config = record {
  vbat_float_uv = nabu_vbat_float_uv;
  vac_ovp_uv = 9_500_000;
  iin_limit_ua = 2_000_000;
  ntc_alarm_cfg = Regs.ntc_alarm_default;
  watchdog_enabled = false;
  watchdog_period = sec10;
  auto_recovery = false;
  verify_writes = true;
  max_bus_retries = 2;
  vbat_reg_disabled = false;
  iin_ocp_disabled = false;
  iin_reg_disabled = false;
  tdie_prot_disabled = false;
  tdie_reg_disabled = false;
  tbus_mon_disabled = false;
  tbat_mon_disabled = false;
}

abbrev pub for_nabu_dts : PumpConfig
for_nabu_dts = record default_config {
  vbat_reg_disabled = true;
  iin_ocp_disabled = true;
  iin_reg_disabled = true;
  tdie_prot_disabled = true;
  tdie_reg_disabled = true;
  tbus_mon_disabled = true;
  tbat_mon_disabled = true;
}

abbrev pub protective : PumpConfig
protective = record default_config {
  vbat_reg_disabled = false;
  iin_ocp_disabled = false;
  iin_reg_disabled = false;
  tdie_prot_disabled = false;
  tdie_reg_disabled = false;
  tbus_mon_disabled = false;
  tbat_mon_disabled = false;
}

abbrev pub for_qc35_class_b : PumpConfig
for_qc35_class_b = record default_config {
  vac_ovp_uv = 13_000_000;
  iin_limit_ua = 3_500_000 - 700_000;
  vbat_reg_disabled = false;
  iin_reg_disabled = false;
  iin_ocp_disabled = true;
  tdie_prot_disabled = true;
  tdie_reg_disabled = true;
  tbus_mon_disabled = true;
  tbat_mon_disabled = true;
}

abbrev pub conservative_config : PumpConfig
conservative_config = record default_config { vac_ovp_uv = 6_500_000; iin_limit_ua = 1_000_000 }

abbrev is_ok : Result ℕ PumpError → Bool
is_ok (ok code) = true
is_ok (err e) = false

abbrev kept_when : Bool → PumpConfig → Option PumpConfig
kept_when true c = some c
kept_when false c = none

-- The flags of a profile, and nothing else of it.
abbrev with_protections : PumpConfig → PumpConfig → PumpConfig
with_protections c template = record c {
  vbat_reg_disabled = template.vbat_reg_disabled;
  iin_ocp_disabled = template.iin_ocp_disabled;
  iin_reg_disabled = template.iin_reg_disabled;
  tdie_prot_disabled = template.tdie_prot_disabled;
  tdie_reg_disabled = template.tdie_reg_disabled;
  tbus_mon_disabled = template.tbus_mon_disabled;
  tbat_mon_disabled = template.tbat_mon_disabled;
}

-- `PumpConfig::apply_parameter`: the settings after an accepted value, `none` where it returns
-- `false` and leaves them as they are.
unfoldable pub applied : PumpConfig → String → ℕ → Option PumpConfig
applied c name value =
    if str_eq name "IinLimitUa"
    then kept_when (is_ok (encode_iin_limit value)) (record c { iin_limit_ua = value })
    else if str_eq name "VbatFloatUv"
    then kept_when (leb 3_725_000 value && leb value 5_000_000) (record c { vbat_float_uv = value })
    else if str_eq name "VacOvpUv"
    then kept_when (leb 6_500_000 value && leb value 13_000_000) (record c { vac_ovp_uv = value })
    else if str_eq name "NtcAlarmCfg"
    then kept_when (leb value 0x3ff) (record c { ntc_alarm_cfg = value })
    else if str_eq name "WatchdogEnabled"
    then some (record c { watchdog_enabled = not (value == 0) })
    else if str_eq name "BusRetryCount"
    then kept_when (leb value 8) (record c { max_bus_retries = value })
    else if str_eq name "ProtectionProfile"
    then if value == 0
      then some (with_protections c for_nabu_dts)
      else kept_when (value == 1) (with_protections c protective)
    else none
