-- ===== src/Kmdf/Hvdcp/Steady/Calls.antt =====
-- The preparation, the current limit and the waits leave the negotiation's own state alone.
use nabu_charger.Prelude.{ℕ, zero, suc, Bool, true, false, Option, none, some, ℤ}
use nabu_charger.Prelude.Methods.{pure}
use nabu_charger.Prelude.Methods.Keeps.{Keeps, keeps_rules, bind-Keeps}
use nabu_charger.Prelude.Methods.Sure.{Sure, sure_rules, Sure-Keeps, bind-Sure}
use nabu_charger.Kmdf.Force9v.{Wait, judge}
use nabu_charger.Kmdf.Hvdcp.{HvdcpState, Bus, Machine, Op}
use nabu_charger.Kmdf.Hvdcp.Access.{ignoring, ask}
use nabu_charger.Kmdf.Hvdcp.Setup.{
  clear_usbin_latched, clear_apsd_cc_gate, clear_usbin_suspend, ensure_icl_floor_500ma,
  ensure_icl_at_least, ensure_hvdcp_voltage_gates, apsd_rerun, sample_qc_status,
}
use nabu_charger.Kmdf.Hvdcp.Waits.{
  answered, poll_until, wait_vin_window, capped, judged, peaked, rise_loop, wait_rise, hold_loop,
}
use nabu_charger.Kmdf.Hvdcp.Steady.{On, steady_rules, ask-Sure, act-Sure, act-Keeps}

module _ {W : Type 0} {F : HvdcpState → Type 0} (bus : Bus W) where
  pub clear_usbin_latched-Sure : Sure (On F) (clear_usbin_latched bus)
  unfolding clear_usbin_latched
  clear_usbin_latched-Sure = search (sure_rules, keeps_rules, steady_rules) depth 20

  pub clear_apsd_cc_gate-Keeps : Keeps (On F) (clear_apsd_cc_gate bus)
  unfolding clear_apsd_cc_gate
  clear_apsd_cc_gate-Keeps = search (keeps_rules, steady_rules) depth 20

  pub clear_usbin_suspend-Sure : Sure (On F) (clear_usbin_suspend bus)
  unfolding clear_usbin_suspend
  clear_usbin_suspend-Sure = search (sure_rules, keeps_rules, steady_rules) depth 20

  ignored-Keeps : {A : Type 0} (m : Op W A) → Keeps (On F) m → Keeps (On F) (ignoring m)
  ignored-Keeps m k = Sure-Keeps (ignoring m) (search (steady_rules, k))

  pub ensure_icl_floor_500ma-Keeps : Keeps (On F) (ensure_icl_floor_500ma bus)
  unfolding ensure_icl_floor_500ma
  ensure_icl_floor_500ma-Keeps = search (keeps_rules, steady_rules, ignored-Keeps) depth 20

  suspended-Keeps : Keeps (On F) (clear_usbin_suspend bus)
  suspended-Keeps = Sure-Keeps (clear_usbin_suspend bus) clear_usbin_suspend-Sure

  pub ensure_icl_at_least-Keeps : (target : ℕ) → Keeps (On F) (ensure_icl_at_least bus target)
  unfolding ensure_icl_at_least
  ensure_icl_at_least-Keeps target =
      search (keeps_rules, steady_rules, ignored-Keeps, suspended-Keeps) depth 20

  pub ensure_hvdcp_voltage_gates-Keeps : Keeps (On F) (ensure_hvdcp_voltage_gates bus)
  unfolding ensure_hvdcp_voltage_gates
  ensure_hvdcp_voltage_gates-Keeps = search (keeps_rules, steady_rules) depth 20

  pub apsd_rerun-Keeps : Keeps (On F) (apsd_rerun bus)
  unfolding apsd_rerun
  apsd_rerun-Keeps = search (steady_rules)

  pub sample_qc_status-Keeps : (m : Machine W) → Keeps (On F) (sample_qc_status bus m)
  unfolding sample_qc_status
  sample_qc_status-Keeps m = search (keeps_rules, steady_rules) depth 20

module _ {W : Type 0} {F : HvdcpState → Type 0} (m : Machine W) where
  module _ {A : Type 0} (sample : Op W (Option A)) (timeout_ms poll_ms : ℕ)
      (exhausted : Op W (Option A)) where
    answered-Sure :
        (a : Option A) (late : Bool) (again : Op W (Option A))
        → Sure (On F) again
        → Sure (On F) (answered m sample timeout_ms poll_ms exhausted a late again)
    answered-Sure (some a) late again h = search (sure_rules)
    answered-Sure none true again h = search (sure_rules)
    answered-Sure none false again h = bind-Sure _ _ (act-Sure _) (λ u. h)

    pub poll_until-Sure :
        Sure (On F) sample
        → Sure (On F) exhausted
        → (fuel waited : ℕ)
        → Sure (On F) (poll_until m sample timeout_ms poll_ms exhausted fuel waited)
    unfolding poll_until
    poll_until-Sure h k zero waited = k
    poll_until-Sure h k (suc fuel) waited =
        bind-Sure _ _ h (λ a. answered-Sure a _ _ (poll_until-Sure h k fuel _))

    answered-Keeps :
        (a : Option A) (late : Bool) (again : Op W (Option A))
        → Keeps (On F) again
        → Keeps (On F) (answered m sample timeout_ms poll_ms exhausted a late again)
    answered-Keeps (some a) late again h = search (keeps_rules)
    answered-Keeps none true again h = search (keeps_rules)
    answered-Keeps none false again h = bind-Keeps _ _ (act-Keeps _) (λ u. h)

    pub poll_until-Keeps :
        Keeps (On F) sample
        → Keeps (On F) exhausted
        → (fuel waited : ℕ)
        → Keeps (On F) (poll_until m sample timeout_ms poll_ms exhausted fuel waited)
    unfolding poll_until
    poll_until-Keeps h k zero waited = k
    poll_until-Keeps h k (suc fuel) waited =
        bind-Keeps _ _ h (λ a. answered-Keeps a _ _ (poll_until-Keeps h k fuel _))

  pub read_vin-Sure : Sure (On F) (ask m.vin)
  read_vin-Sure = ask-Sure _

  pub wait_vin_window-Sure :
      (timeout_ms : ℕ) (pred : ℤ → Bool) → Sure (On F) (wait_vin_window m timeout_ms pred)
  unfolding wait_vin_window
  wait_vin_window-Sure timeout_ms pred = search (sure_rules, steady_rules, poll_until-Sure) depth 10

  capped-Sure :
      (w : Wait) (late : Bool) (again : Wait → Op W Wait)
      → ((w : Wait) → Sure (On F) (again w))
      → Sure (On F) (capped m w late again)
  capped-Sure w true again h = search (sure_rules)
  capped-Sure w false again h = search (sure_rules, steady_rules, h) depth 10

  judged-Sure :
      (j : Option Wait) (w : Wait) (again : Wait → Op W Wait)
      → ((w : Wait) → Sure (On F) (again w))
      → Sure (On F) (judged m j w again)
  judged-Sure none w again h = search (sure_rules)
  judged-Sure (some w') w again h = capped-Sure w' _ again h

  rise_loop-Sure : (fuel : ℕ) (w : Wait) → Sure (On F) (rise_loop m pure fuel w)
  unfolding rise_loop
  rise_loop-Sure zero w = search (sure_rules)
  rise_loop-Sure (suc fuel) w =
      judged-Sure (judge (peaked m w)) (peaked m w) (rise_loop m pure fuel) (rise_loop-Sure fuel)

  pub wait_rise-Sure : Sure (On F) (wait_rise m)
  unfolding wait_rise
  wait_rise-Sure = search (sure_rules, steady_rules, rise_loop-Sure) depth 10

  pub hold_loop-Sure : (left hold : ℕ) (vin : ℤ) → Sure (On F) (hold_loop m left hold vin)
  unfolding hold_loop
  hold_loop-Sure zero hold vin = search (sure_rules)
  hold_loop-Sure (suc left) hold vin =
      search (sure_rules, steady_rules, hold_loop-Sure left) depth 10

pub ruleset calls_rules = (
  clear_usbin_latched-Sure, clear_apsd_cc_gate-Keeps, clear_usbin_suspend-Sure,
  ensure_icl_floor_500ma-Keeps, ensure_icl_at_least-Keeps, ensure_hvdcp_voltage_gates-Keeps,
  apsd_rerun-Keeps, sample_qc_status-Keeps, wait_vin_window-Sure, wait_rise-Sure, hold_loop-Sure,
)
