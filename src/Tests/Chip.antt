-- ===== src/Tests/Chip.antt =====
-- The pump on an ideal chip whose registers are memory: a 9 V input, a 4.0 V cell, and a status that
-- names 2:1.
use nabu_charger.Prelude.{◌≡◌, true, false, none, Result, ◌==◌, if◌then◌else◌}
use nabu_charger.Ln8000.Regs
use nabu_charger.Ln8000.Error.{PumpError}
use nabu_charger.Ln8000.Mode.{OpMode, unknown}
use nabu_charger.Ln8000.Bus.Memory.{Image, memory}
use nabu_charger.Ln8000.Config.{default_config}
use nabu_charger.Ln8000.Pump.{Pump, PumpState}
use nabu_charger.Ln8000.Pump.Modes.{enable_switching, enable_bypass}
use nabu_charger.Ln8000.Pump.Charging.{set_charging}
use nabu_charger.Ln8000.Pump.Frame.Charge.{set_charging-config}

-- Vin is code 562 in bits 4 to 13 of the pair at 0x0b, and the cell is code 800 in the pair at 0x0e.
abbrev pub raised : Image
raised k =
    if k == 0x0b
    then 0x20
    else if k == 0x0c
    then 0x23
    else if k == 0x0e
    then 0x20
    else if k == 0x0f
    then 0x03
    else if k == Regs.sys_sts
    then 0x04
    else 0

abbrev pub bench : Image → Pump Image
bench image = record {
  bus = image;
  config = record default_config { max_bus_retries = 0 };
  state = PumpState.configured;
  op_mode = unknown;
  bypass_stage = 0;
  por_vin_uv = none;
  writes = 0;
  reads = 0;
}

abbrev started : Result OpMode PumpError × Pump Image
started = set_charging memory (λ b. b) true (bench raised)

set_charging-config_example :
    (set_charging memory (λ b. b) false (bench raised)).1.config ≡ (bench raised).config
set_charging-config_example = set_charging-config memory (λ b. b) false (bench raised)

abbrev switched : Result OpMode PumpError × Pump Image
switched = enable_switching memory (bench raised)

-- Vin is code 313, and the status names 1:1.
abbrev five_volt : Image
five_volt k =
    if k == 0x0b then 0x90 else if k == 0x0c then 0x13 else if k == Regs.sys_sts then 0x08 else 0

abbrev bypassed : Result OpMode PumpError × Pump Image
bypassed = enable_bypass memory (bench five_volt)
