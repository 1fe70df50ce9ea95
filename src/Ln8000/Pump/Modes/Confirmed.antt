-- ===== src/Ln8000/Pump/Modes/Confirmed.antt =====
-- A mode is reported only when the chip's status has confirmed it.
use nabu_charger.Prelude.{◌≡◌, refl, zero, suc, ℕ, ℤ, sym, ◌∙◌, pos, ◌≤ℤ◌, ◌<ℤ◌}
use nabu_charger.Ln8000.Error.{mode_not_reached, bypass_needs_five_volt_vin}
use nabu_charger.Ln8000.Mode.{OpMode, mode_eq, mode_code, bypass, switching}
use nabu_charger.Ln8000.Bus.{RegisterBus}
use nabu_charger.Ln8000.Status.{Status}
use nabu_charger.Ln8000.Window.{bypass_allowed_by_vin}
use nabu_charger.Ln8000.Pump.{Pump, PumpState, Op, ◌>>=◌, ◌>>◌, pure, fail, branch, modify}
use nabu_charger.Ln8000.Pump.Yields.{
  Post, Yields, chain-Yields, bind-Yields, fail-Yields, branch-Yields, branch-Post, mode_eq_sound,
}
use nabu_charger.Ln8000.Pump.Setup.{status, set_op_mode}
use nabu_charger.Ln8000.Pump.Modes.{
  battery_uv, settle_rounds, settle_and_read_status, enable_switching, enable_bypass, settled,
}

-- The snapshot names the mode that the pump has recorded.
abbrev pub Recorded : {B : Type 0} → Status → Pump B → Type 0
Recorded s q = q.op_mode ≡ s.op_mode

-- The requested mode, confirmed, with the session state that goes with it.
abbrev pub Reached : {B : Type 0} → OpMode → PumpState → OpMode → Pump B → Type 0
Reached want state m q = (m ≡ want) × (q.op_mode ≡ want) × (q.state ≡ state)

noted-Recorded :
    {B : Type 0} {m : OpMode} (s : Status)
    → s.op_mode ≡ m
    → Yields {B = B} (do modify (λ p. record p { op_mode = m }); pure s) Recorded
unfolding ◌>>=◌
noted-Recorded s e = record { yields = λ p. sym e }

module _ {B : Type 0} (io : RegisterBus B) where
  status-Recorded : Yields (status io) Recorded
  unfolding status
  status-Recorded = bind-Yields _ _ _ λ open_now. bind-Yields _ _ _ λ sys_sts.
      bind-Yields _ _ _ λ safety_sts. bind-Yields _ _ _ λ fault1_sts.
        bind-Yields _ _ _ λ fault2_sts. bind-Yields _ _ _ λ ldo_sts. noted-Recorded _ refl

  settle_rounds-Recorded :
      (n : ℕ) (s : Status) (q : Pump B) → Recorded s q → Post Recorded (settle_rounds io n s q)
  unfolding settle_rounds
  settle_rounds-Recorded zero s q e = e
  settle_rounds-Recorded (suc n) s q e =
      (chain-Yields Recorded (λ now. branch (settled io now) (pure now) (settle_rounds io n now))
          Recorded (status io) status-Recorded
          (λ now r f.
            branch-Post Recorded (settled io now) (pure now) (settle_rounds io n now) r (λ h. f)
              (settle_rounds-Recorded n now r f))).yields
        q

  settle-Recorded : Yields (settle_and_read_status io) Recorded
  unfolding settle_and_read_status
  settle-Recorded =
      chain-Yields Recorded (settle_rounds io 3) Recorded (status io) status-Recorded
        (settle_rounds-Recorded 3)

  -- What both requests do with the settled snapshot.
  pub confirm-Reached :
      (want : OpMode) (state : PumpState) (k : Op B OpMode) (now : Status) (q : Pump B)
      → Recorded now q
      → Post (Reached want state) (k q)
      → Post (Reached want state) (
          branch
            (mode_eq now.op_mode want)
            (do modify (λ p. record p { state = state }); pure now.op_mode)
            k
            q)
  unfolding ◌>>=◌
  confirm-Reached want state k now q e h =
      branch-Post (Reached want state) (mode_eq now.op_mode want) _ k q
        (λ same. let agrees = mode_eq_sound now.op_mode want same in (agrees, e ∙ agrees, refl)) h

  pub enable_switching-Reached :
      Yields (enable_switching io) (Reached switching PumpState.switching)
  unfolding enable_switching
  enable_switching-Reached = bind-Yields _ _ _ λ requested.
      chain-Yields _ _ Recorded (settle_and_read_status io) settle-Recorded
        (λ now q e. confirm-Reached switching PumpState.switching (fail _) now q e tt)

  pub enable_bypass-Reached : Yields (enable_bypass io) (Reached bypass PumpState.configured)
  unfolding enable_bypass
  enable_bypass-Reached = bind-Yields _ _ _ λ vin_uv. bind-Yields _ _ _ λ vbat_uv.
      branch-Yields _ _ _ _
        (λ allowed. bind-Yields _ _ _ λ requested.
          chain-Yields _ _ Recorded (settle_and_read_status io) settle-Recorded
            (λ now q e. confirm-Reached bypass PumpState.configured (fail _) now q e tt))
        (fail-Yields _ _)

  -- What `enable_bypass` goes on to do with its reading.
  abbrev with_reading : ℤ → Op B OpMode
  with_reading vin_uv = do
    vbat_uv ← battery_uv io
    branch (bypass_allowed_by_vin vin_uv vbat_uv)
        (do
          set_op_mode io bypass
          now ← settle_and_read_status io
          branch (mode_eq now.op_mode bypass)
              (do modify (λ p. record p { state = PumpState.configured }); pure now.op_mode)
              (fail (mode_not_reached (mode_code bypass) now.sys_sts)))
        (fail (bypass_needs_five_volt_vin vin_uv))

  abbrev InWindow : ℤ → Type 0
  InWindow v = (pos 4_200_000 ≤ℤ v) × (v <ℤ pos 6_000_000)
