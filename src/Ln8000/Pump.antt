-- ===== src/Ln8000/Pump.antt =====
-- The driver's session and its register access (`Pump`, crates/ln8000/src/driver.rs).
pub mod Retry
pub mod Access
pub mod Frame
pub mod Yields
pub mod Ideal
pub mod Setup
pub mod Modes
pub mod NearFloat
pub mod Charging
use Prim.Native.String.{String}
use nabu_charger.Prelude.{
  ℕ, zero, suc, Bool, true, false, not, Option, none, some, ◌==◌, if◌then◌else◌, sat_add, Result,
  ok, err, ℤ,
}
use nabu_charger.Ln8000.Regs
use nabu_charger.Ln8000.Error.{
  BusError, PumpError, bus_recoverable, bus, out_of_range, not_open, wrong_device_id,
}
use nabu_charger.Ln8000.Mode.{OpMode, unknown}
use nabu_charger.Ln8000.Bus.{RegisterBus, merge}
use nabu_charger.Ln8000.Config.{PumpConfig}
use nabu_charger.Ln8000.Status.{AdcChannel, register, decode}

pub data PumpState : Type 0 where
  closed probed configured switching faulted : PumpState

abbrev pub state_label : PumpState → String
state_label PumpState.closed = "closed"
state_label PumpState.probed = "probed"
state_label PumpState.configured = "configured"
state_label PumpState.switching = "switching"
state_label PumpState.faulted = "faulted"

abbrev pub is_closed : PumpState → Bool
is_closed PumpState.closed = true
is_closed PumpState.probed = false
is_closed PumpState.configured = false
is_closed PumpState.switching = false
is_closed PumpState.faulted = false

pub record Pump (B : Type 0) : Type 0 where
  pub bus : B
  pub config : PumpConfig
  pub state : PumpState
  pub op_mode : OpMode
  pub bypass_stage : ℕ
  pub por_vin_uv : Option ℕ
  pub writes : ℕ
  pub reads : ℕ

-- A method: what it did to the pump stays done when it fails.
abbrev pub Op : Type 0 → Type 0 → Type 0
Op B A = Pump B → Result A PumpError × Pump B

abbrev pub value_or : {A : Type 0} → A → Result A PumpError → A
value_or a (ok x) = x
value_or a (err e) = a

module _ {B A : Type 0} where
  abbrev pub pure : A → Op B A
  pure a p = (ok a, p)

  abbrev pub fail : PumpError → Op B A
  fail e p = (err e, p)

  -- `.unwrap_or(a)` on the outcome of a method.
  abbrev pub or_value : Op B A → A → Op B A
  or_value m a p = (ok (value_or a (m p).0), (m p).1)

  -- `let _ = …`: the outcome is dropped, the effects are not.
  abbrev pub ignore : Op B A → Op B Unit
  ignore m p = (ok tt, (m p).1)

  -- `if c { m } else { k }` on methods.
  unfoldable pub branch : Bool → Op B A → Op B A → Op B A
  branch true m k = m
  branch false m k = k

  -- The outcome kept for later: what follows is done whether it is a failure or not.
  abbrev pub attempt : Op B A → Op B (Result A PumpError)
  attempt m p = (ok (m p).0, (m p).1)

  -- A pure fallible call under `?`.
  abbrev pub lift : Result A PumpError → Op B A
  lift r p = (r, p)

  abbrev pub gets : (Pump B → A) → Op B A
  gets f p = (ok (f p), p)

abbrev pub modify : {B : Type 0} → (Pump B → Pump B) → Op B Unit
modify f p = (ok tt, f p)

-- What follows a success; a failure passes by (`?`).
abbrev pub next :
    {B A C : Type 0} → (A → Op B C) → Result A PumpError × Pump B → Result C PumpError × Pump B
next f (ok a, q) = f a q
next f (err e, q) = (err e, q)

infixl 5 ◌>>=◌ ◌>>◌
unfoldable pub ◌>>=◌ : {B A C : Type 0} → Op B A → (A → Op B C) → Op B C
◌>>=◌ m f p = next f (m p)

abbrev pub ◌>>◌ : {B A C : Type 0} → Op B A → Op B C → Op B C
m >> k = m >>= λ _. k

-- The early `return Err(PumpError::NotOpen)` of the methods that have it.
abbrev pub require_open : {B : Type 0} → Op B Unit
require_open p = if is_closed p.state then (err not_open, p) else (ok tt, p)

module _ {B : Type 0} (io : RegisterBus B) where
  module _ {A : Type 0} where
    abbrev pub give_up : BusError → B → Op B A
    give_up e b p = (err (bus e), record p { bus = b; state = PumpState.faulted })

    -- The outcome of a call after which none is left.
    abbrev pub last_call : (Pump B → Pump B) → Result A BusError → B → Op B A
    last_call count (ok a) b p = (ok a, count (record p { bus = b }))
    last_call count (err e) b p = give_up e b p

    -- A failure that a reset may cure is followed by a reset and another round.
    abbrev pub cure : Bool → Op B A → BusError → B → Op B A
    cure true again e b p = again (record p { bus = (io.reset_channel b).1 })
    cure false again e b p = give_up e b p

    abbrev pub retried : (Pump B → Pump B) → Op B A → Result A BusError → B → Op B A
    retried count again (ok a) b p = (ok a, count (record p { bus = b }))
    retried count again (err e) b p = cure (bus_recoverable e) again e b p

    -- The loop of `read`, `read_pair` and `write`, with the retries that are left.
    unfoldable pub retry : (B → Result A BusError × B) → (Pump B → Pump B) → ℕ → Op B A
    retry call count zero p = last_call count (call p.bus).0 (call p.bus).1 p
    retry call count (suc left) p =
        retried count (retry call count left) (call p.bus).0 (call p.bus).1 p

  abbrev pub count_reads : ℕ → Pump B → Pump B
  count_reads n p = record p { reads = sat_add p.reads n }

  abbrev pub count_write : Pump B → Pump B
  count_write p = record p { writes = sat_add p.writes 1 }

  unfoldable pub read : ℕ → Op B ℕ
  read addr p = retry (io.read_byte addr) (count_reads 1) p.config.max_bus_retries p

  unfoldable pub read_pair : ℕ → Op B ℕ
  read_pair addr p = retry (io.read_word addr) (count_reads 2) p.config.max_bus_retries p

  unfoldable pub write : ℕ → ℕ → Op B Unit
  write addr value p = retry (io.write_byte addr value) count_write p.config.max_bus_retries p

  abbrev fault_out_of_range : String → ℕ → Op B Unit
  fault_out_of_range field requested p =
      (err (out_of_range field requested), record p { state = PumpState.faulted })

  abbrev pub expect : Bool → String → ℕ → Op B Unit
  expect true field requested = pure tt
  expect false field requested = fault_out_of_range field requested

  abbrev pub read_back : Bool → ℕ → ℕ → String → Op B Unit
  read_back true addr value field = do got ← read addr; expect (got == value) field value
  read_back false addr value field = pure tt

  -- The read-back that `verify_writes` asks for.
  unfoldable pub verify : ℕ → ℕ → String → Op B Unit
  verify addr value field p = read_back p.config.verify_writes addr value field p

  unfoldable pub update : ℕ → ℕ → ℕ → String → Op B Unit
  update addr mask value field = do
    current ← read addr
    write addr (merge current mask value)
    verify addr (merge current mask value) field

  unfoldable pub write_verified : ℕ → ℕ → String → Op B Unit
  write_verified addr value field = do write addr value; verify addr value field

  -- `Pump::open`, from the bus as it is handed over.
  unfoldable pub open_pump : PumpConfig → B → Result (Pump B) PumpError
  open_pump config b =
      let (r, opened) = io.read_byte Regs.device_id (io.reset_channel b).1 in
      elim r [
        | err e ↦ err (bus e)
        | ok id ↦
            if id == Regs.device_id_value
            then ok (record {
              bus = opened;
              config = config;
              state = PumpState.probed;
              op_mode = unknown;
              bypass_stage = 0;
              por_vin_uv = none;
              writes = 0;
              reads = 1;
            })
            else err (wrong_device_id id)
      ]

  -- The ADC stands still while the pair is read, and runs again whether or not that worked.
  unfoldable pub read_adc : AdcChannel → Op B ℤ
  read_adc channel = do
    update Regs.timer_ctrl Regs.timer_ctrl_pause_adc Regs.timer_ctrl_pause_adc "adc_pause"
    outcome ← attempt (read_pair (register channel))
    ignore (update Regs.timer_ctrl Regs.timer_ctrl_pause_adc 0 "adc_resume")
    raw ← lift outcome
    pure (decode channel raw)
