-- ===== src/Kmdf/Hvdcp/Pulses.antt =====
-- The Quick Charge 3 pulses, the 9 V request and the return to 5 V (crates/ln8000-kmdf/src/hvdcp.rs).
use nabu_charger.Prelude.{ℕ, ◌-◌, Bool, true, false, min, sat_add, bit_and, bit_or}
use nabu_charger.Prelude.Methods.{gets, pure, branch, ◌>>=◌, ◌>>◌}
use nabu_charger.Ln8000.Qc35.{Qc35AuthPulse}
use nabu_charger.Kmdf.Hvdcp.{HvdcpState, Bus, Machine, Op}
use nabu_charger.Kmdf.Hvdcp.Regs.{
  reg_cmd_hvdcp_2, bit_single_inc, bit_single_dec, bit_force_5v, bit_force_9v, max_pulse_cnt,
  pulse_gap_ms,
}
use nabu_charger.Kmdf.Hvdcp.Access.{read_reg, write_reg, ignoring, or_zero, act, edit}

abbrev pub qc35_auth_pulse_gap_ms : ℕ
qc35_auth_pulse_gap_ms = 5

abbrev pub count_up : HvdcpState → HvdcpState
count_up s = record s { pulse_cnt = min (sat_add s.pulse_cnt 1) max_pulse_cnt }

abbrev pub count_down : HvdcpState → HvdcpState
count_down s = record s { pulse_cnt = s.pulse_cnt - 1 }

abbrev pub latch_9v : HvdcpState → HvdcpState
latch_9v s = record s { force9v_latched = true; pulse_cnt = 20 }

module _ {W : Type 0} (m : Machine W) (bus : Bus W) where
  abbrev send_bit : ℕ → Op W Bool
  send_bit bit = do
    cur ← or_zero (read_reg bus reg_cmd_hvdcp_2)
    write_reg bus reg_cmd_hvdcp_2 (bit_or (bit_and cur 0xfc) bit)
    pure true

  -- One step bit, unless the 9 V request is latched; whether it was sent.
  unfoldable pub pulse_cmd_bit : ℕ → Op W Bool
  pulse_cmd_bit bit = do
    latched ← gets (λ p. p.state.force9v_latched)
    branch latched (pure false) (send_bit bit)

  unfoldable pub pulse_inc_gap : ℕ → Op W Unit
  pulse_inc_gap gap_ms = do
    sent ← pulse_cmd_bit bit_single_inc
    branch sent (edit count_up) (pure tt)
    act (m.sleep gap_ms)

  unfoldable pub pulse_dec_gap : ℕ → Op W Unit
  pulse_dec_gap gap_ms = do
    sent ← pulse_cmd_bit bit_single_dec
    branch sent (edit count_down) (pure tt)
    act (m.sleep gap_ms)

  abbrev pub pulse_inc : Op W Unit
  pulse_inc = pulse_inc_gap pulse_gap_ms

  abbrev pub pulse_dec : Op W Unit
  pulse_dec = pulse_dec_gap pulse_gap_ms

  abbrev pub pulse_auth_step : Qc35AuthPulse → Op W Unit
  pulse_auth_step Qc35AuthPulse.inc = pulse_inc_gap qc35_auth_pulse_gap_ms
  pulse_auth_step Qc35AuthPulse.dec = pulse_dec_gap qc35_auth_pulse_gap_ms

  unfoldable pub force_9v : Op W Unit
  force_9v = do
    existing ← or_zero (read_reg bus reg_cmd_hvdcp_2)
    write_reg bus reg_cmd_hvdcp_2 (bit_or existing bit_force_9v)
    edit latch_9v
    act (m.sleep 100)

  unfoldable pub safe_force_5v : Op W Unit
  safe_force_5v = do
    ignoring (write_reg bus reg_cmd_hvdcp_2 bit_force_5v)
    edit (λ s. record s { force9v_latched = false })
