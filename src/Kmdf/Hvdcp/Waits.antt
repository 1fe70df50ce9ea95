-- ===== src/Kmdf/Hvdcp/Waits.antt =====
-- The polls of the negotiation: a loop that samples, gives up past its time-out, and sleeps between
-- samples (crates/ln8000-kmdf/src/hvdcp.rs). Each has one round more than its time-out has sleeps;
-- `exhausted` stands for a loop that would still go on then, and no answer depends on it.
pub mod Enough
use nabu_charger.Prelude.{
  ℕ, zero, suc, ◌+◌, ◌==◌, Bool, true, false, Option, none, some, leb, sat_add, bit_and,
  if◌then◌else◌, ℤ, pos, leb_ℤ,
}
use nabu_charger.Prelude.Methods.{pure, throw, branch, ◌>>=◌, ◌>>◌}
use nabu_charger.Ln8000.Hvdcp.{force9v_hard_cap_ms, force9v_settle_ms}
use nabu_charger.Ln8000.Window.{switching_min_vin_uv}
use nabu_charger.Kmdf.Force9v.{Wait, judge, higher, force9v_poll_ms}
use nabu_charger.Kmdf.Hvdcp.{HvdcpError, Bus, Machine, Op}
use nabu_charger.Kmdf.Hvdcp.Regs.{
  reg_apsd_status, reg_apsd_result, bit_apsd_done, apsd_wait_ms, apsd_poll_ms,
}
use nabu_charger.Kmdf.Hvdcp.Access.{read_reg, ask, act, edit}

abbrev pub qc35_vin_poll_ms : ℕ
qc35_vin_poll_ms = 20

module _ {W : Type 0} (m : Machine W) where
  module _ {A : Type 0} (sample : Op W (Option A)) (timeout_ms poll_ms : ℕ)
      (exhausted : Op W (Option A)) where
    abbrev pub answered : Option A → Bool → Op W (Option A) → Op W (Option A)
    answered (some a) late again = pure (some a)
    answered none true again = pure none
    answered none false again = do act (m.sleep poll_ms); again

    -- `loop { sample; if waited >= timeout_ms { give up }; sleep }`
    unfoldable pub poll_until : ℕ → ℕ → Op W (Option A)
    poll_until zero waited = exhausted
    poll_until (suc fuel) waited = do
      a ← sample
      answered a (leb timeout_ms waited) (poll_until fuel (sat_add waited poll_ms))

  abbrev pub read_vin : Op W ℤ
  read_vin = ask m.vin

  abbrev pub matching : (ℤ → Bool) → ℤ → Option ℤ
  matching pred vin = if pred vin then some vin else none

  abbrev pub sample_vin : (ℤ → Bool) → Op W (Option ℤ)
  sample_vin pred = do vin ← read_vin; pure (matching pred vin)

  -- `wait_vin_window`, for time-outs of up to 250 ms.
  unfoldable pub wait_vin_window : ℕ → (ℤ → Bool) → Op W (Option ℤ)
  wait_vin_window timeout_ms pred =
      poll_until (sample_vin pred) timeout_ms qc35_vin_poll_ms (pure none) 15 0

  abbrev done_of : Bus W → ℕ → Op W (Option (Unit {0}))
  done_of bus status = branch (bit_and status bit_apsd_done == 0) (pure none) (do
    result ← read_reg bus reg_apsd_result
    edit (λ s. record s { apsd_result = result })
    pure (some tt))

  abbrev pub sample_apsd : Bus W → Op W (Option (Unit {0}))
  sample_apsd bus = do
    status ← read_reg bus reg_apsd_status
    edit (λ s. record s { apsd_status = status })
    done_of bus status

  abbrev pub or_timeout : Option (Unit {0}) → Op W Unit
  or_timeout none = throw HvdcpError.apsd_timeout
  or_timeout (some u) = pure tt

  unfoldable pub wait_apsd_done : Bus W → Op W Unit
  wait_apsd_done bus = do
    done ← poll_until (sample_apsd bus) apsd_wait_ms apsd_poll_ms (pure none) 12 0
    or_timeout done

  -- `wait_force9v_rise` on the samples of the machine; `judge` is the part of a round before the sleep.
  abbrev pub sampled : Wait → ℤ → Wait
  sampled w vin = record w {
    waited = sat_add w.waited force9v_poll_ms;
    last = vin;
    peak = higher vin w.peak;
    reads = w.reads + 1;
  }

  abbrev pub capped : Wait → Bool → (Wait → Op W Wait) → Op W Wait
  capped w true again = pure w
  capped w false again = do act (m.sleep force9v_poll_ms); vin ← read_vin; again (sampled w vin)

  abbrev pub judged : Option Wait → Wait → (Wait → Op W Wait) → Op W Wait
  judged none w again = pure w
  judged (some w') w again = capped w' (leb force9v_hard_cap_ms w'.waited) again

  abbrev pub peaked : Wait → Wait
  peaked w = record w { peak = higher w.last w.peak }

  unfoldable pub rise_loop : (Wait → Op W Wait) → ℕ → Wait → Op W Wait
  rise_loop exhausted zero w = exhausted w
  rise_loop exhausted (suc fuel) w = judged (judge (peaked w)) (peaked w) (rise_loop exhausted fuel)

  abbrev pub first_sample : ℤ → Wait
  first_sample vin = record {
    waited = 0;
    deadline = force9v_settle_ms;
    extended = false;
    last = vin;
    peak = vin;
    confirm = 0;
    reads = 1;
  }

  unfoldable pub wait_rise : Op W Wait
  wait_rise = do vin ← read_vin; rise_loop pure 101 (first_sample vin)

  -- How many readings in a row hold the 2:1 gate, of at most four more.
  abbrev holds_gate : ℤ → ℕ → ℕ
  holds_gate vin hold = if leb_ℤ (pos switching_min_vin_uv) vin then sat_add hold 1 else 0

  pub record Held : Type 0 where
    pub vin_after : ℤ
    pub hold : ℕ

  unfoldable pub hold_loop : ℕ → ℕ → ℤ → Op W Held
  hold_loop zero hold vin = pure (record { vin_after = vin; hold = hold })
  hold_loop (suc left) hold vin =
      branch (leb 2 (holds_gate vin hold))
        (pure (record { vin_after = vin; hold = holds_gate vin hold }))
        (do
          act (m.sleep force9v_poll_ms)
          vin' ← read_vin
          hold_loop left (holds_gate vin hold) vin')
