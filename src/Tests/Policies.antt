-- ===== src/Tests/Policies.antt =====
-- The voltage windows, the register codes, the status, the adapter policies and the telemetry.
use nabu_charger.Prelude.{
  ℕ, ◌+◌, ◌*◌, ◌/◌, ◌%◌, ◌^◌, ◌≤◌, ◌≡◌, ◌↔◌, true, false, some, List, [], ◌∷◌, ℤ, pos, ◌≤ℤ◌, ◌<ℤ◌,
  arith,
}
use nabu_charger.Ln8000.Regs
use nabu_charger.Ln8000.Mode.{switching, bypass}
use nabu_charger.Ln8000.Window.{charge_mode}
use nabu_charger.Ln8000.Window.Admission.{charge_mode-switching_iff, charge_mode-bypass_iff}
use nabu_charger.Ln8000.Status.{AdcChannel, register, raw_code, Status}
use nabu_charger.Ln8000.Status.Adc.{raw_code-stream, pair_at}
use nabu_charger.Ln8000.Session.{TelemetrySample, for_each_sample}
use nabu_charger.Ln8000.Session.Ring.{recent}
use nabu_charger.Ln8000.Session.History.{pushed, for_each_sample-recent}
use nabu_charger.Ln8000.Session.{last_completed}
use nabu_charger.Ln8000.Session.Tracking.{summary, current-session_of}
use nabu_charger.Ln8000.Session.Completed.{last_completed-finished}
use nabu_charger.Kmdf.Force9v.{wait_force9v_rise, Wait}
use nabu_charger.Kmdf.Force9v.Bounds.{wait-ends, IsPeak}

charge_mode-bypass_iff_example :
    (charge_mode (pos 5_000_000) 4_000_000 ≡ some bypass)
    ↔ ((pos 4_200_000 ≤ℤ pos 5_000_000) × (pos 5_000_000 <ℤ pos 6_000_000))
charge_mode-bypass_iff_example = charge_mode-bypass_iff (pos 5_000_000) 4_000_000

charge_mode-switching_iff_example :
    (charge_mode (pos 9_000_000) 4_000_000 ≡ some switching)
    ↔ ((pos 6_000_000 ≤ℤ pos 9_000_000) × (pos (2 * 4_000_000 + 250_000) ≤ℤ pos 9_000_000))
charge_mode-switching_iff_example =
    charge_mode-switching_iff (pos 9_000_000) 4_000_000 (omega arith)

abbrev encoded : ℕ
encoded = 41

raw_code-stream_example :
    raw_code AdcChannel.vin (pair_at 589_824_000 (register AdcChannel.vin))
    ≡ 589_824_000 / 2 ^ (10 * 2) % 1024
raw_code-stream_example = raw_code-stream AdcChannel.vin 589_824_000

-- The NTC shutdown, without a voltage fault.
abbrev shut_down : Status
shut_down = record {
  sys_sts = 4;
  op_mode = switching;
  safety_sts = Regs.safety_ntc_shutdown;
  fault1_sts = 0;
  fault2_sts = 0;
  ldo_sts = 0;
}

abbrev sample_at : ℕ → TelemetrySample
sample_at ts_ms = record {
  ts_ms = ts_ms;
  vbat_uv = 4_000_000;
  vbus_uv = 9_000_000;
  iin_ua = 1_500_000;
  die_temp_dc = pos 350;
  op_mode = switching;
  input_present = true;
  vbat_valid = true;
  die_temp_valid = true;
}

abbrev two_samples : List TelemetrySample
two_samples = sample_at 2_000 ∷ sample_at 1_000 ∷ []

for_each_sample-recent_example : for_each_sample (pushed two_samples) ≡ recent 256 two_samples
for_each_sample-recent_example = for_each_sample-recent two_samples

current-session_of_example :
    (pushed two_samples).current ≡ some (summary (sample_at 2_000) (sample_at 1_000 ∷ []))
current-session_of_example = current-session_of two_samples

abbrev unplugged : TelemetrySample
unplugged = record (sample_at 3_000) { input_present = false }

last_completed-finished_example :
    last_completed (pushed (unplugged ∷ two_samples))
    ≡ some (record (summary (sample_at 2_000) (sample_at 1_000 ∷ [])) { ended_ms = some 3_000 })
last_completed-finished_example = last_completed-finished (unplugged ∷ two_samples)

-- A source that stays at 5 V.
abbrev flat : ℕ → ℤ
flat n = pos 5_000_000

wait-ends_example :
    (r : Wait) × (wait_force9v_rise flat ≡ some r)
    × (r.waited ≤ 5_000)
    × (r.reads ≤ 101)
    × IsPeak flat r
wait-ends_example = wait-ends flat
