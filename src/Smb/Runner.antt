-- ===== src/Smb/Runner.antt =====
-- The host's loops over a session (crates/host/src/runner.rs). The callback and the pause act on the
-- world; they cannot reach the charger.
use nabu_charger.Prelude.{ℕ, zero, suc, Option, none, some, Result}
use nabu_charger.Prelude.Methods.{pure, throw, gets, ◌>>=◌, ◌>>◌}
use nabu_charger.Smb.Error.{ChargerError, detection_timeout}
use nabu_charger.Smb.Adapter.{AdapterType}
use nabu_charger.Smb.Platform.{ChargerTransport, Clock}
use nabu_charger.Smb.Charger.{State, Stats, Op, now}
use nabu_charger.Smb.Charger.Detect.{Detection, pending, ready, detect_step}
use nabu_charger.Smb.Charger.Apply.{
  Monitor, unchanged, changed, detached, ChargePlan, apply, monitor,
}

pub record RunOptions : Type 0 where
  pub poll_interval : ℕ
  pub max_steps : ℕ

abbrev pub default_options : RunOptions
default_options = record { poll_interval = 20; max_steps = 1_000 }

pub record SessionOutcome : Type 0 where
  pub adapter : AdapterType
  pub plan : ChargePlan
  pub state : State
  pub stats : Stats

-- A call of the caller's code, which sees the world only.
abbrev pub outside : {W A : Type 0} → (W → Result A ChargerError × W) → Op W A
outside f p = ((f p.world).0, record p { world = (f p.world).1 })

module _ {W : Type 0} (io : ChargerTransport W) (clock : Clock W) where
  module _ (sleep : ℕ → W → W) (on_adapter : AdapterType → W → Result Unit ChargerError × W) where
    abbrev pub land : AdapterType → Op W SessionOutcome
    land adapter = do
      outside (on_adapter adapter)
      plan ← apply io clock adapter
      gets (λ p. record { adapter = adapter; plan = plan; state = p.state; stats = p.stats })

    abbrev pub pause : ℕ → Op W SessionOutcome → Op W SessionOutcome
    pause poll_interval again p = again (record p { world = sleep poll_interval p.world })

    abbrev pub continued : ℕ → Op W SessionOutcome → Detection → Op W SessionOutcome
    continued poll_interval again (pending elapsed_ms attempts) = pause poll_interval again
    continued poll_interval again (ready adapter) = land adapter

    -- The loop, with the steps that are left.
    unfoldable pub run_steps : ℕ → ℕ → Op W SessionOutcome
    run_steps poll_interval zero = do waited_ms ← now clock; throw (detection_timeout waited_ms)
    run_steps poll_interval (suc left) = do
      answer ← detect_step io clock
      continued poll_interval (run_steps poll_interval left) answer

    unfoldable pub run_until_ready : RunOptions → Op W SessionOutcome
    run_until_ready options = run_steps options.poll_interval options.max_steps

  abbrev pub reapplied : Monitor → Op W (Option ChargePlan)
  reapplied (unchanged adapter) = pure none
  reapplied detached = pure none
  reapplied (changed adapter) = do plan ← apply io clock adapter; pure (some plan)

  unfoldable pub monitor_cycle : Op W (Option ChargePlan)
  monitor_cycle = do answer ← monitor io clock; reapplied answer
