-- ===== src/Tests/Access.antt =====
-- Register access on the ideal chip and on one that never answers, the settings, and the driver's
-- use of the guard's actions.
use nabu_charger.Prelude.{ℕ, ◌≡◌, some, none, ok, err, refl, pos, arith}
use nabu_charger.Ln8000.Error.{BusError, timeout}
use nabu_charger.Ln8000.Mode.{unknown, standby}
use nabu_charger.Ln8000.Bus.{RegisterBus}
use nabu_charger.Ln8000.Bus.Memory.{memory}
use nabu_charger.Ln8000.Config.{default_config, applied}
use nabu_charger.Ln8000.Config.Parameters.{IsValid, applied-IsValid}
use nabu_charger.Ln8000.Codes.{encode_iin_limit}
use nabu_charger.Ln8000.Guard.{standard, fallback_to_bypass}
use nabu_charger.Ln8000.Pump.{Pump, PumpState, retry, count_reads}
use nabu_charger.Ln8000.Pump.Retry.{counted, counted-retry, counted-endless}
use nabu_charger.Ln8000.Pump.Setup.{set_op_mode}
use nabu_charger.Kmdf.Guarding.{apply_guard}
use nabu_charger.Kmdf.Guarding.Raised.{IsSpared, apply_guard-IsSpared, apply_guard-two_strikes}
use nabu_charger.Tests.Chip.{bench, raised}

abbrev no_answer : BusError
no_answer = record { kind = timeout; code = pos 0; detail = "no answer" }

-- A chip that never answers.
abbrev silent : RegisterBus Unit
silent = record {
  read_byte = λ addr b. (err no_answer, b);
  write_byte = λ addr value b. (err no_answer, b);
  reset_channel = λ b. (ok tt, b);
  read_word = λ addr b. (err no_answer, b);
}

abbrev silent_pump : ℕ → Pump Unit
silent_pump retries = record {
  bus = tt;
  config = record default_config { max_bus_retries = retries };
  state = PumpState.configured;
  op_mode = unknown;
  bypass_stage = 0;
  por_vin_uv = none;
  writes = 0;
  reads = 0;
}

counted-retry_example :
    counted silent (silent.read_byte 1) (count_reads silent 1) 3 0 (silent_pump 2)
    ≡ some (retry silent (silent.read_byte 1) (count_reads silent 1) 2 (silent_pump 2))
counted-retry_example =
    counted-retry silent (silent.read_byte 1) (count_reads silent 1) 2 0 3 (silent_pump 2)
      (omega arith) (omega arith) (omega arith)

counted-endless_example :
    counted silent (silent.read_byte 1) (count_reads silent 1) 1_000 0 (silent_pump 255) ≡ none
counted-endless_example =
    counted-endless silent (silent.read_byte 1) (count_reads silent 1) 1_000 0 (silent_pump 255)
      refl (λ b. (no_answer, refl, refl))

default_config-IsValid : IsValid default_config
default_config-IsValid = record {
  iin_accepted = omega arith;
  float_floor = omega arith;
  float_ceiling = omega arith;
  ovp_floor = omega arith;
  ovp_ceiling = omega arith;
  ntc_fits = omega arith;
  retries_bounded = omega arith;
}

applied-IsValid_example : IsValid (record default_config { iin_limit_ua = 1_500_000 })
unfolding applied encode_iin_limit
applied-IsValid_example =
    applied-IsValid default_config (record default_config { iin_limit_ua = 1_500_000 }) "IinLimitUa"
      1_500_000 default_config-IsValid refl

apply_guard-IsSpared_example :
    IsSpared memory
      (bench raised)
      (apply_guard memory
        (fallback_to_bypass "hot")
        (pos 9_000_000)
        4_000_000
        standard
        0
        (bench raised)).0
apply_guard-IsSpared_example =
    apply_guard-IsSpared memory (fallback_to_bypass "hot") (pos 9_000_000) 4_000_000 standard 0
      (bench raised) (omega arith)

apply_guard-two_strikes_example :
    let (p', counted_once) =
      apply_guard memory
        (fallback_to_bypass "hot")
        (pos 9_000_000)
        4_000_000
        standard
        0
        (bench raised) in
    (apply_guard memory
      (fallback_to_bypass "hot")
      (pos 8_500_000)
      4_000_000
      standard
      counted_once
      (bench raised)).0
    ≡ (set_op_mode memory standby (bench raised)).1
apply_guard-two_strikes_example =
    apply_guard-two_strikes memory "hot" "hot" (pos 9_000_000) (pos 8_500_000) 4_000_000 4_000_000
      standard 0 (bench raised) (bench raised) (omega arith) (omega arith)
