-- ===== src/Ln8000/Config/Parameters.antt =====
-- Registry parameters cannot make the settings invalid.
use Prim.Native.String.{String}
use text.Mathlib.Text.{◌==◌ as str_eq}
use mathlib.Core.Path.{subst}
use nabu_charger.Prelude.{
  ℕ, ◌≤◌, ◌≡◌, refl, Bool, true, false, ◌&&◌, Option, none, some, leb, not, ◌==◌, if◌then◌else◌,
  arith,
}
use nabu_charger.Ln8000.Codes.{encode_iin_limit}
use nabu_charger.Ln8000.Config.{
  PumpConfig, applied, kept_when, is_ok, with_protections, for_nabu_dts, protective,
}

-- The settings that every encoder takes without clamping or failing.
pub record IsValid (c : PumpConfig) : Type 0 where
  pub iin_accepted : 500_000 ≤ c.iin_limit_ua
  pub float_floor : 3_725_000 ≤ c.vbat_float_uv
  pub float_ceiling : c.vbat_float_uv ≤ 5_000_000
  pub ovp_floor : 6_500_000 ≤ c.vac_ovp_uv
  pub ovp_ceiling : c.vac_ovp_uv ≤ 13_000_000
  pub ntc_fits : c.ntc_alarm_cfg ≤ 0x3ff
  pub retries_bounded : c.max_bus_retries ≤ 8

abbrev Inside : Option PumpConfig → Type 0
Inside none = Unit
Inside (some c) = IsValid c

-- The settings, if any, are valid.
record AreValid (o : Option PumpConfig) : Type 0 where
  every : (c : PumpConfig) → o ≡ some c → IsValid c

none-AreValid : AreValid none
none-AreValid = record { every = λ c e. ground arith }

some-AreValid : (c : PumpConfig) → IsValid c → AreValid (some c)
some-AreValid c h = record { every = λ d e. subst Inside e h }

either-AreValid :
    (t : Bool) (x y : Option PumpConfig) → AreValid x → AreValid y → AreValid (if t then x else y)
either-AreValid true x y h k = h
either-AreValid false x y h k = k

kept_when-AreValid : (b : Bool) (c : PumpConfig) → (b ≡ true → IsValid c) → AreValid (kept_when b c)
kept_when-AreValid true c h = some-AreValid c (h refl)
kept_when-AreValid false c h = none-AreValid

within : (lo value hi : ℕ) → leb lo value && leb value hi ≡ true → (lo ≤ value) × (value ≤ hi)
within lo value hi e = ground arith

encode-accepts : (value : ℕ) → is_ok (encode_iin_limit value) ≡ true → 500_000 ≤ value
unfolding encode_iin_limit
encode-accepts value e = ground arith

protections-IsValid : (c t : PumpConfig) → IsValid c → IsValid (with_protections c t)
protections-IsValid c t h = record {
  iin_accepted = h.iin_accepted;
  float_floor = h.float_floor;
  float_ceiling = h.float_ceiling;
  ovp_floor = h.ovp_floor;
  ovp_ceiling = h.ovp_ceiling;
  ntc_fits = h.ntc_fits;
  retries_bounded = h.retries_bounded;
}

with_iin-IsValid :
    (c : PumpConfig) (value : ℕ)
    → IsValid c
    → 500_000 ≤ value
    → IsValid (record c { iin_limit_ua = value })
with_iin-IsValid c value h e = record {
  iin_accepted = e;
  float_floor = h.float_floor;
  float_ceiling = h.float_ceiling;
  ovp_floor = h.ovp_floor;
  ovp_ceiling = h.ovp_ceiling;
  ntc_fits = h.ntc_fits;
  retries_bounded = h.retries_bounded;
}

with_float-IsValid :
    (c : PumpConfig) (value : ℕ)
    → IsValid c
    → 3_725_000 ≤ value
    → value ≤ 5_000_000
    → IsValid (record c { vbat_float_uv = value })
with_float-IsValid c value h lo hi = record {
  iin_accepted = h.iin_accepted;
  float_floor = lo;
  float_ceiling = hi;
  ovp_floor = h.ovp_floor;
  ovp_ceiling = h.ovp_ceiling;
  ntc_fits = h.ntc_fits;
  retries_bounded = h.retries_bounded;
}

with_ovp-IsValid :
    (c : PumpConfig) (value : ℕ)
    → IsValid c
    → 6_500_000 ≤ value
    → value ≤ 13_000_000
    → IsValid (record c { vac_ovp_uv = value })
with_ovp-IsValid c value h lo hi = record {
  iin_accepted = h.iin_accepted;
  float_floor = h.float_floor;
  float_ceiling = h.float_ceiling;
  ovp_floor = lo;
  ovp_ceiling = hi;
  ntc_fits = h.ntc_fits;
  retries_bounded = h.retries_bounded;
}

with_ntc-IsValid :
    (c : PumpConfig) (value : ℕ)
    → IsValid c
    → value ≤ 0x3ff
    → IsValid (record c { ntc_alarm_cfg = value })
with_ntc-IsValid c value h e = record {
  iin_accepted = h.iin_accepted;
  float_floor = h.float_floor;
  float_ceiling = h.float_ceiling;
  ovp_floor = h.ovp_floor;
  ovp_ceiling = h.ovp_ceiling;
  ntc_fits = e;
  retries_bounded = h.retries_bounded;
}

with_retries-IsValid :
    (c : PumpConfig) (value : ℕ)
    → IsValid c
    → value ≤ 8
    → IsValid (record c { max_bus_retries = value })
with_retries-IsValid c value h e = record {
  iin_accepted = h.iin_accepted;
  float_floor = h.float_floor;
  float_ceiling = h.float_ceiling;
  ovp_floor = h.ovp_floor;
  ovp_ceiling = h.ovp_ceiling;
  ntc_fits = h.ntc_fits;
  retries_bounded = e;
}

with_watchdog-IsValid :
    (c : PumpConfig) (on : Bool) → IsValid c → IsValid (record c { watchdog_enabled = on })
with_watchdog-IsValid c on h = record {
  iin_accepted = h.iin_accepted;
  float_floor = h.float_floor;
  float_ceiling = h.float_ceiling;
  ovp_floor = h.ovp_floor;
  ovp_ceiling = h.ovp_ceiling;
  ntc_fits = h.ntc_fits;
  retries_bounded = h.retries_bounded;
}

at_most : (value hi : ℕ) → leb value hi ≡ true → value ≤ hi
at_most value hi e = ground arith

applied-AreValid :
    (c : PumpConfig) (name : String) (value : ℕ) → IsValid c → AreValid (applied c name value)
unfolding applied
applied-AreValid c name value h =
    either-AreValid (str_eq name "IinLimitUa") _ _
      (kept_when-AreValid _ _ λ e. with_iin-IsValid c value h (encode-accepts value e))
      (either-AreValid (str_eq name "VbatFloatUv") _ _
        (kept_when-AreValid _ _ λ e.
          let (lo, hi) = within 3_725_000 value 5_000_000 e in with_float-IsValid c value h lo hi)
        (either-AreValid (str_eq name "VacOvpUv") _ _
          (kept_when-AreValid _ _ λ e.
            let (lo, hi) = within 6_500_000 value 13_000_000 e in with_ovp-IsValid c value h lo hi)
          (either-AreValid (str_eq name "NtcAlarmCfg") _ _
            (kept_when-AreValid _ _ λ e. with_ntc-IsValid c value h (at_most value 0x3ff e))
            (either-AreValid (str_eq name "WatchdogEnabled") _ _
              (some-AreValid _ (with_watchdog-IsValid c (not (value == 0)) h))
              (either-AreValid (str_eq name "BusRetryCount") _ _
                (kept_when-AreValid _ _ λ e. with_retries-IsValid c value h (at_most value 8 e))
                (either-AreValid (str_eq name "ProtectionProfile") _ _
                  (either-AreValid (value == 0) _ _
                    (some-AreValid _ (protections-IsValid c for_nabu_dts h))
                    (kept_when-AreValid (value == 1) _ λ e. protections-IsValid c protective h))
                  none-AreValid))))))

-- An accepted registry parameter keeps the settings valid.
pub applied-IsValid :
    (c c' : PumpConfig) (name : String) (value : ℕ)
    → IsValid c
    → applied c name value ≡ some c'
    → IsValid c'
applied-IsValid c c' name value h e = (applied-AreValid c name value h).every c' e
