-- ===== src/Ln8000/Pump/Frame.antt =====
-- What the methods leave alone: the settings, through any chain of register accesses and mode
-- requests, on every path.
pub mod Methods
pub mod Charge
use Prim.Native.String.{String}
use nabu_charger.Prelude.{
  ℕ, ◌≡◌, refl, ◌∙◌, Bool, true, false, Option, some, none, Result, ok, err, ℤ, arith,
}
use nabu_charger.Ln8000.Error.{PumpError}
use nabu_charger.Ln8000.Mode.{OpMode}
use nabu_charger.Ln8000.Bus.{RegisterBus}
use nabu_charger.Ln8000.Config.{PumpConfig}
use nabu_charger.Ln8000.Status.{AdcChannel}
use nabu_charger.Ln8000.Pump.{
  Pump, PumpState, Op, next, ◌>>=◌, ◌>>◌, pure, ignore, attempt, or_value, lift, gets, modify,
  branch, fail, read, read_pair, write, update, write_verified, read_adc, require_open, is_closed,
}
use nabu_charger.Ln8000.Pump.Retry.{Contained, Kept}
use nabu_charger.Ln8000.Pump.Access.{
  Contained-Kept, read-Contained, read_pair-Contained, write-Contained, update-Contained,
  write_verified-Contained,
}

-- A method that never touches the settings and never leaves an open session closed.
pub record Frame {B A : Type 0} (m : Op B A) : Type 0 where
  pub config_kept : (p : Pump B) → (m p).1.config ≡ p.config
  pub open_kept : (p : Pump B) → is_closed p.state ≡ false → is_closed (m p).1.state ≡ false

module _ {B A C : Type 0} (f : A → Op B C) (h : (a : A) → Frame (f a)) where
  next-config :
      (o : Result A PumpError × Pump B) (c : PumpConfig) → o.1.config ≡ c → (next f o).1.config ≡ c
  next-config (ok a, q) c e = (h a).config_kept q ∙ e
  next-config (err x, q) c e = e

  next-open :
      (o : Result A PumpError × Pump B)
      → is_closed o.1.state ≡ false
      → is_closed (next f o).1.state ≡ false
  next-open (ok a, q) e = (h a).open_kept q e
  next-open (err x, q) e = e

  pub bind-Frame : (m : Op B A) → Frame m → Frame (m >>= f)
  unfolding ◌>>=◌
  bind-Frame m k = record {
    config_kept = λ p. next-config (m p) p.config (k.config_kept p);
    open_kept = λ p o. next-open (m p) (k.open_kept p o);
  }

module _ {B A : Type 0} where
  pub then-Frame : {C : Type 0} (m : Op B C) (k : Op B A) → Frame m → Frame k → Frame (m >> k)
  then-Frame m k a b = bind-Frame (λ done. k) (λ done. b) m a

  pub pure-Frame : (a : A) → Frame {B = B} (pure a)
  pure-Frame a = record { config_kept = λ p. refl; open_kept = λ p e. e }

  pub fail-Frame : (e : PumpError) → Frame {B = B} {A = A} (fail e)
  fail-Frame x = record { config_kept = λ p. refl; open_kept = λ p e. e }

  pub lift-Frame : (r : Result A PumpError) → Frame {B = B} (lift r)
  lift-Frame r = record { config_kept = λ p. refl; open_kept = λ p e. e }

  pub gets-Frame : (f : Pump B → A) → Frame (gets f)
  gets-Frame f = record { config_kept = λ p. refl; open_kept = λ p e. e }

  pub ignore-Frame : (m : Op B A) → Frame m → Frame (ignore m)
  ignore-Frame m h = record { config_kept = h.config_kept; open_kept = h.open_kept }

  pub attempt-Frame : (m : Op B A) → Frame m → Frame (attempt m)
  attempt-Frame m h = record { config_kept = h.config_kept; open_kept = h.open_kept }

  pub or_value-Frame : (m : Op B A) (a : A) → Frame m → Frame (or_value m a)
  or_value-Frame m a h = record { config_kept = h.config_kept; open_kept = h.open_kept }

  pub choice-Frame : (b : Bool) (m k : Op B A) → Frame m → Frame k → Frame (branch b m k)
  unfolding branch
  choice-Frame true m k h l = h
  choice-Frame false m k h l = l

  Contained-open :
      (p : Pump B) (o : Result A PumpError × Pump B)
      → Contained p o
      → is_closed p.state ≡ false
      → is_closed o.1.state ≡ false
  Contained-open p (ok a, q) (k, s) e = rw s e
  Contained-open p (err x, q) (k, s) e = rw s refl

  pub Contained-Frame : (m : Op B A) → ((p : Pump B) → Contained p (m p)) → Frame m
  Contained-Frame m h = record {
    config_kept = λ p. (Contained-Kept p (m p) (h p)).0;
    open_kept = λ p. Contained-open p (m p) (h p);
  }

pub require_open-Frame : {B : Type 0} → Frame {B = B} require_open
require_open-Frame = record { config_kept = λ p. ground arith; open_kept = λ p e. ground arith }

module _ {B : Type 0} (io : RegisterBus B) where
  pub read-Frame : (addr : ℕ) → Frame (read io addr)
  read-Frame addr = Contained-Frame (read io addr) (read-Contained io addr)

  pub read_pair-Frame : (addr : ℕ) → Frame (read_pair io addr)
  read_pair-Frame addr = Contained-Frame (read_pair io addr) (read_pair-Contained io addr)

  pub write-Frame : (addr value : ℕ) → Frame (write io addr value)
  write-Frame addr value = Contained-Frame (write io addr value) (write-Contained io addr value)

  pub update-Frame :
      (addr mask value : ℕ) (field : String) → Frame (update io addr mask value field)
  update-Frame addr mask value field =
      Contained-Frame (update io addr mask value field) (update-Contained io addr mask value field)

  pub write_verified-Frame :
      (addr value : ℕ) (field : String) → Frame (write_verified io addr value field)
  write_verified-Frame addr value field =
      Contained-Frame (write_verified io addr value field)
        (write_verified-Contained io addr value field)

pub ruleset frames = (
  bind-Frame, choice-Frame, pure-Frame, fail-Frame, lift-Frame, gets-Frame, ignore-Frame,
  attempt-Frame, or_value-Frame, require_open-Frame, read-Frame, read_pair-Frame, write-Frame,
  update-Frame, write_verified-Frame,
)

module _ {B : Type 0} (io : RegisterBus B) where
  pub read_adc-Frame : (channel : AdcChannel) → Frame (read_adc io channel)
  unfolding read_adc
  read_adc-Frame channel = search frames
