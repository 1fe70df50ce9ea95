-- ===== src/Kmdf/Hvdcp/Steady/Pulsed.antt =====
-- What the pulses leave of the negotiation's state: a property that both counts keep.
use nabu_charger.Prelude.{ℕ, zero, suc, Bool, true, false, Option, none, some, List, [], ◌∷◌, ℤ}
use nabu_charger.Prelude.Methods.Keeps.{Keeps, keeps_rules}
use nabu_charger.Prelude.Methods.Sure.{Sure, bind-Sure, branch-Sure, pure-Sure}
use nabu_charger.Ln8000.Qc35.{Qc35AuthPulse, qc35_power_limit_w}
use nabu_charger.Kmdf.Hvdcp.{HvdcpState, Bus, Machine, Op}
use nabu_charger.Kmdf.Hvdcp.Access.{or_zero}
use nabu_charger.Kmdf.Hvdcp.Pulses.{
  count_up, count_down, pulse_cmd_bit, pulse_inc_gap, pulse_dec_gap, pulse_auth_step,
}
use nabu_charger.Kmdf.Hvdcp.Qc35.{
  prep_loop, prep_qc35_detect_window, pulse_train, voted, confirmed, answered, asked, detected,
  attempt_qc35_authenticate,
}
use nabu_charger.Kmdf.Hvdcp.Steady.{
  On, steady_rules, ask-Sure, succeeds-Sure, ignoring-Sure, or_zero-Sure,
}
use nabu_charger.Kmdf.Hvdcp.Steady.Calls.{
  ensure_icl_floor_500ma-Keeps, ensure_icl_at_least-Keeps, wait_vin_window-Sure,
}
use nabu_charger.Prelude.Methods.Sure.{Sure-Keeps}

-- Closed under the two counts of a pulse.
pub record Counts (F : HvdcpState → Type 0) : Type 0 where
  pub up : (s : HvdcpState) → F s → F (count_up s)
  pub down : (s : HvdcpState) → F s → F (count_down s)

module _ {W : Type 0} {F : HvdcpState → Type 0} (m : Machine W) (bus : Bus W) where
  zeroed-Keeps : (k : Op W ℕ) → Keeps (On F) k → Keeps (On F) (or_zero k)
  zeroed-Keeps k h = Sure-Keeps _ (or_zero-Sure k h)

  pub pulse_cmd_bit-Keeps : (bit : ℕ) → Keeps (On F) (pulse_cmd_bit m bus bit)
  unfolding pulse_cmd_bit
  pulse_cmd_bit-Keeps bit = search (keeps_rules, steady_rules, zeroed-Keeps) depth 20

  module _ (c : Counts F) where
    pub pulse_inc_gap-Keeps : (gap_ms : ℕ) → Keeps (On F) (pulse_inc_gap m bus gap_ms)
    unfolding pulse_inc_gap
    pulse_inc_gap-Keeps gap_ms =
        search (keeps_rules, steady_rules, pulse_cmd_bit-Keeps, c.up) depth 20

    pub pulse_dec_gap-Keeps : (gap_ms : ℕ) → Keeps (On F) (pulse_dec_gap m bus gap_ms)
    unfolding pulse_dec_gap
    pulse_dec_gap-Keeps gap_ms =
        search (keeps_rules, steady_rules, pulse_cmd_bit-Keeps, c.down) depth 20

    pulse_auth_step-Keeps : (p : Qc35AuthPulse) → Keeps (On F) (pulse_auth_step m bus p)
    pulse_auth_step-Keeps Qc35AuthPulse.inc = pulse_inc_gap-Keeps _
    pulse_auth_step-Keeps Qc35AuthPulse.dec = pulse_dec_gap-Keeps _

    prep_loop-Sure : (left : ℕ) (vin : ℤ) → Sure (On F) (prep_loop m bus left vin)
    unfolding prep_loop
    prep_loop-Sure zero vin = pure-Sure true
    prep_loop-Sure (suc left) vin = branch-Sure _ _ _ (pure-Sure true) (
        bind-Sure _ _ (succeeds-Sure _ (pulse_inc_gap-Keeps _)) (λ sent.
          branch-Sure sent _ _
            (bind-Sure _ _ (ask-Sure _)
              (λ v. branch-Sure _ _ _ (prep_loop-Sure left v) (pure-Sure false)))
            (pure-Sure false)))

    prep-Sure : Sure (On F) (prep_qc35_detect_window m bus)
    unfolding prep_qc35_detect_window
    prep-Sure = bind-Sure _ _ (ask-Sure _) (λ vin.
        branch-Sure _ _ _
          (bind-Sure _ _ (prep_loop-Sure _ vin)
            (λ go. branch-Sure go _ _ (wait_vin_window-Sure m _ _) (pure-Sure none)))
          (pure-Sure none))

    pulse_train-Sure : (l : List Qc35AuthPulse) → Sure (On F) (pulse_train m bus l)
    unfolding pulse_train
    pulse_train-Sure [] = pure-Sure true
    pulse_train-Sure (p ∷ l) =
        bind-Sure _ _ (succeeds-Sure _ (pulse_auth_step-Keeps p))
          (λ sent. branch-Sure sent _ _ (pulse_train-Sure l) (pure-Sure false))

    voted-Sure : (w : ℕ) (sent : Bool) → Sure (On F) (voted m bus w sent)
    voted-Sure w false = pure-Sure none
    voted-Sure w true =
        bind-Sure _ _ (ignoring-Sure _ (ensure_icl_at_least-Keeps bus _)) (λ u. pure-Sure (some w))

    confirmed-Sure : (w : Option ℕ) → Sure (On F) (confirmed m bus w)
    confirmed-Sure none = pure-Sure none
    confirmed-Sure (some w) = bind-Sure _ _ (pulse_train-Sure _) (λ sent. voted-Sure w sent)

    answered-Sure : (v : Option ℤ) → Sure (On F) (answered m bus v)
    answered-Sure none = bind-Sure _ _ (ask-Sure _) (λ v. pure-Sure none)
    answered-Sure (some v) = confirmed-Sure (qc35_power_limit_w v)

    asked-Sure : (sent : Bool) → Sure (On F) (asked m bus sent)
    asked-Sure false = pure-Sure none
    asked-Sure true = bind-Sure _ _ (wait_vin_window-Sure m _ _) (λ v. answered-Sure v)

    detected-Sure : (v : Option ℤ) → Sure (On F) (detected m bus v)
    detected-Sure none = pure-Sure none
    detected-Sure (some v) = bind-Sure _ _ (pulse_train-Sure _) (λ sent. asked-Sure sent)

    pub attempt_qc35-Sure : Sure (On F) (attempt_qc35_authenticate m bus)
    unfolding attempt_qc35_authenticate
    attempt_qc35-Sure =
        bind-Sure _ _ (ignoring-Sure _ (ensure_icl_floor_500ma-Keeps bus))
          (λ u. bind-Sure _ _ prep-Sure (λ v. detected-Sure v))
