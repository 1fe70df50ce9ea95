-- ===== src/Tests/Renegotiate.antt =====
-- A busy bus, and an input that stays at 5 V without a transfer.
use nabu_charger.Prelude.{ℕ, ◌-◌, ◌≤◌, ◌≡◌, refl, true, List, [], ◌∷◌, pos, neg, arith}
use nabu_charger.Ln8000.Hvdcp.{should_schedule_superuser_retry}
use nabu_charger.Kmdf.Hvdcp.{HvdcpPhase, new_state}
use nabu_charger.Kmdf.Renegotiate.{DriverState, Tick}
use nabu_charger.Kmdf.Renegotiate.Rates.{retries, retries-bounded}

abbrev failed_once : DriverState
failed_once = record {
  hvdcp = record new_state { phase = HvdcpPhase.failed };
  hvdcp_edge_armed = true;
  last_input_present = true;
  hvdcp_retry_pending = true;
  hvdcp_retry_attempts = 28;
  hvdcp_retry_next_ms = 2_000;
  re_elevate_attempts = 0;
  re_elevate_next_ms = 0;
  re_elevate_backoff_ms = 0;
}

abbrev tick_at : ℕ → Tick
tick_at now = record {
  vbus = pos 5_000_000;
  owned = true;
  now_ms = now;
  later_ms = now;
  code = neg 10;
  left = record new_state { phase = HvdcpPhase.failed };
  vin_after = pos 5_000_000;
}

abbrev ticks : List Tick
ticks = tick_at 2_000 ∷ tick_at 62_000 ∷ tick_at 64_000 ∷ tick_at 190_000 ∷ []

busy : should_schedule_superuser_retry (neg 10) ≡ true
unfolding should_schedule_superuser_retry
busy = refl

retries-bounded_example : retries ticks failed_once ≤ 30 - 28
retries-bounded_example =
    retries-bounded ticks failed_once (busy, (busy, (busy, (busy, tt)))) (omega arith)
