-- ===== src/Ln8000/Pump/Charging/Outcome.antt =====
-- Charging is reported in no mode but the one that the measured input calls for.
use nabu_charger.Prelude.{◌≡◌, Option, Result, ok, err, pos, pos_part}
use nabu_charger.Ln8000.Regs
use nabu_charger.Ln8000.Error.{PumpError}
use nabu_charger.Ln8000.Mode.{OpMode}
use nabu_charger.Ln8000.Bus.{RegisterBus}
use nabu_charger.Ln8000.Status.{vin, vbat}
use nabu_charger.Ln8000.Window.{charge_mode}
use nabu_charger.Ln8000.Pump.{Pump, value_or, read_adc}
use nabu_charger.Ln8000.Pump.Yields.{Yields}

-- The returned mode is the wanted one.
abbrev pub Is : {B : Type 0} → OpMode → OpMode → Pump B → Type 0
Is want m q = m ≡ want

-- A request that succeeded got the wanted mode.
abbrev Good : OpMode → Result OpMode PumpError → Type 0
Good want (ok m) = m ≡ want
Good want (err e) = Unit

module _ {B : Type 0} (io : RegisterBus B) (delay : B → B) where
  -- The mode that the input of `p` calls for, by the two readings that the decision takes.
  abbrev pub called_for : Pump B → Option OpMode
  called_for p =
      charge_mode (value_or (pos 0) (read_adc io vin p).0)
        (pos_part (value_or (pos 0) (read_adc io vbat (read_adc io vin p).1).0))
