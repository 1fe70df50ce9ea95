-- ===== src/Kmdf/Hvdcp/Steady.antt =====
-- What the calls of the negotiation leave of its own state: those of the platform leave all of it.
pub mod Calls
pub mod Pulsed
use nabu_charger.Prelude.{ℕ, zero, suc, Bool, true, false, Option, none, some, Result, ok, err}
use nabu_charger.Prelude.Methods.{pure, gets, rescue, ◌>>=◌, ◌>>◌}
use nabu_charger.Prelude.Methods.Keeps.{Keeps, keeps_rules, bind-Keeps, pure-Keeps}
use nabu_charger.Prelude.Methods.Sure.{Sure, sure_rules, Sure-Keeps, rescue-Sure, pure-Sure}
use nabu_charger.Prelude.Methods.Ends.{Ends}
use nabu_charger.Kmdf.Hvdcp.{HvdcpState, HvdcpError, Session, Bus, superuser, usbin, SpbBus, Op}
use nabu_charger.Kmdf.Hvdcp.Access.{
  call, ask, act, edit, ignoring, or_zero, succeeds, spmi_rw_usbin, read_reg, write_reg,
}

-- A property of the negotiation's own state.
pub record On {W : Type 0} (F : HvdcpState → Type 0) (q : Session W) : Type 0 where
  pub on : F q.state

module _ {W : Type 0} {F : HvdcpState → Type 0} where
  pub call-Keeps : {A : Type 0} (f : W → Option A × W) → Keeps (On F) (call f)
  unfolding call
  call-Keeps f = record { keeps = λ s p. record { on = p.on } }

  pub ask-Sure : {A : Type 0} (f : W → A × W) → Sure (On F) (ask f)
  unfolding ask
  ask-Sure f = record { sure = record { ends = λ s p. record { on = p.on } } }

  pub act-Sure : (f : W → W) → Sure (On F) (act f)
  unfolding act
  act-Sure f = record { sure = record { ends = λ s p. record { on = p.on } } }

  pub edit-Sure :
      (f : HvdcpState → HvdcpState)
      → ((s : HvdcpState) → F s → F (f s))
      → Sure (On {W = W} F) (edit f)
  unfolding edit
  edit-Sure f h = record { sure = record { ends = λ s p. record { on = h s.state p.on } } }

  pub ask-Keeps : {A : Type 0} (f : W → A × W) → Keeps (On F) (ask f)
  ask-Keeps f = Sure-Keeps (ask f) (ask-Sure f)

  pub act-Keeps : (f : W → W) → Keeps (On F) (act f)
  act-Keeps f = Sure-Keeps (act f) (act-Sure f)

  pub edit-Keeps :
      (f : HvdcpState → HvdcpState)
      → ((s : HvdcpState) → F s → F (f s))
      → Keeps (On {W = W} F) (edit f)
  edit-Keeps f h = Sure-Keeps (edit f) (edit-Sure f h)

  pub spmi_rw_usbin-Keeps :
      (rh : SpbBus W) (addr : ℕ) (value : Option ℕ) (big : Bool)
      → Keeps (On F) (spmi_rw_usbin rh addr value big)
  unfolding spmi_rw_usbin
  spmi_rw_usbin-Keeps rh addr value big = call-Keeps _

  pub read_reg-Keeps : (bus : Bus W) (addr : ℕ) → Keeps (On F) (read_reg bus addr)
  unfolding read_reg
  read_reg-Keeps (superuser su) addr = call-Keeps _
  read_reg-Keeps (usbin rh) addr = search (keeps_rules, spmi_rw_usbin-Keeps)

  pub write_reg-Keeps : (bus : Bus W) (addr value : ℕ) → Keeps (On F) (write_reg bus addr value)
  unfolding write_reg
  write_reg-Keeps (superuser su) addr value = call-Keeps _
  write_reg-Keeps (usbin rh) addr value = search (keeps_rules, spmi_rw_usbin-Keeps)

  module _ {A : Type 0} (m : Op W A) (k : Keeps (On F) m) where
    pub ignoring-Sure : Sure (On F) (ignoring m)
    unfolding ignoring
    ignoring-Sure = rescue-Sure _ _ (bind-Keeps _ _ k (λ a. pure-Keeps tt)) (λ e. pure-Sure tt)

    pub succeeds-Sure : Sure (On F) (succeeds m)
    succeeds-Sure = rescue-Sure _ _ (bind-Keeps _ _ k (λ a. pure-Keeps true)) (λ e. pure-Sure false)

  pub or_zero-Sure : (m : Op W ℕ) → Keeps (On F) m → Sure (On F) (or_zero m)
  unfolding or_zero
  or_zero-Sure m k = search (sure_rules, keeps_rules, k) depth 20

pub started-Ends :
    {W A : Type 0} {F G : HvdcpState → Type 0} {Q : A → Session W → Type 0}
    {X : HvdcpError → Session W → Type 0} {m : Op W A}
    → ((s : HvdcpState) → F s → G s)
    → Ends (On G) m Q X
    → Ends (On F) m Q X
started-Ends h k = record { ends = λ p d. k.ends p (record { on = h p.state d.on }) }

pub ruleset steady_rules = (
  call-Keeps, ask-Sure, act-Sure, edit-Sure, ask-Keeps, act-Keeps, edit-Keeps, read_reg-Keeps,
  write_reg-Keeps, ignoring-Sure, or_zero-Sure,
)
