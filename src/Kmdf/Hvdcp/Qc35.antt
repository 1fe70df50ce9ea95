-- ===== src/Kmdf/Hvdcp/Qc35.antt =====
-- The Quick Charge 3.5 authentication by pulses (crates/ln8000-kmdf/src/hvdcp.rs). Its failure is
-- `none`: the caller goes on with the pulses of Quick Charge 3.
use nabu_charger.Prelude.{ℕ, zero, suc, Bool, true, false, Option, none, some, List, [], ◌∷◌, ℤ}
use nabu_charger.Prelude.Methods.{pure, branch, ◌>>=◌, ◌>>◌}
use nabu_charger.Ln8000.Qc35.{
  Qc35AuthPulse, Qc35AuthGate, decide_qc35_auth_attempt, qc35_detect_window, qc35_cap_window,
  qc35_power_limit_w, qc35_icl_raw, qc35_src_cap_pulses, qc35_confirm_pulses, qc35_prep_max_inc,
}
use nabu_charger.Kmdf.Hvdcp.{Bus, Machine, Op}
use nabu_charger.Kmdf.Hvdcp.Access.{ignoring, succeeds}
use nabu_charger.Kmdf.Hvdcp.Pulses.{pulse_inc_gap, pulse_auth_step, qc35_auth_pulse_gap_ms}
use nabu_charger.Kmdf.Hvdcp.Waits.{read_vin, wait_vin_window}
use nabu_charger.Kmdf.Hvdcp.Setup.{ensure_icl_floor_500ma, ensure_icl_at_least}

abbrev pub qc35_detect_timeout_ms : ℕ
qc35_detect_timeout_ms = 200

abbrev pub qc35_cap_timeout_ms : ℕ
qc35_cap_timeout_ms = 250

abbrev goes_on : Qc35AuthGate → Bool
goes_on Qc35AuthGate.attempt = true
goes_on Qc35AuthGate.skip_vin_too_high = false
goes_on Qc35AuthGate.skip_vin_invalid = false

abbrev pub may_attempt : ℤ → Bool
may_attempt vin = goes_on (decide_qc35_auth_attempt vin)

module _ {W : Type 0} (m : Machine W) (bus : Bus W) where
  -- The `while` of the preparation, with the pulses that are left; false is its `Err`.
  unfoldable pub prep_loop : ℕ → ℤ → Op W Bool
  prep_loop zero vin = pure true
  prep_loop (suc left) vin = branch (qc35_detect_window vin) (pure true) (do
    sent ← succeeds (pulse_inc_gap m bus qc35_auth_pulse_gap_ms)
    branch sent (do vin' ← read_vin m; branch (may_attempt vin') (prep_loop left vin') (pure false))
        (pure false))

  unfoldable pub prep_qc35_detect_window : Op W (Option ℤ)
  prep_qc35_detect_window = do
    vin ← read_vin m
    branch (may_attempt vin)
        (do
          go ← prep_loop qc35_prep_max_inc vin
          branch go (wait_vin_window m qc35_detect_timeout_ms qc35_detect_window) (pure none))
        (pure none)

  -- A pulse train that stops at the first failure; whether it went out whole.
  unfoldable pub pulse_train : List Qc35AuthPulse → Op W Bool
  pulse_train [] = pure true
  pulse_train (pulse ∷ rest) = do
    sent ← succeeds (pulse_auth_step m bus pulse)
    branch sent (pulse_train rest) (pure false)

  abbrev pub voted : ℕ → Bool → Op W (Option ℕ)
  voted power_w false = pure none
  voted power_w true = do
    ignoring (ensure_icl_at_least bus (qc35_icl_raw power_w))
    pure (some power_w)

  abbrev pub confirmed : Option ℕ → Op W (Option ℕ)
  confirmed none = pure none
  confirmed (some power_w) = do sent ← pulse_train qc35_confirm_pulses; voted power_w sent

  -- The answer of the adapter; without one the input is read once more, for the record.
  abbrev pub answered : Option ℤ → Op W (Option ℕ)
  answered none = do read_vin m; pure none
  answered (some cap_vin) = confirmed (qc35_power_limit_w cap_vin)

  abbrev pub asked : Bool → Op W (Option ℕ)
  asked false = pure none
  asked true = do cap ← wait_vin_window m qc35_cap_timeout_ms qc35_cap_window; answered cap

  abbrev pub detected : Option ℤ → Op W (Option ℕ)
  detected none = pure none
  detected (some vin) = do sent ← pulse_train qc35_src_cap_pulses; asked sent

  unfoldable pub attempt_qc35_authenticate : Op W (Option ℕ)
  attempt_qc35_authenticate = do
    ignoring (ensure_icl_floor_500ma bus)
    vin ← prep_qc35_detect_window
    detected vin
