-- ===== src/Smb/Charger/View/Runs.antt =====
-- The host's loops: what they end in.
use nabu_charger.Prelude.{◌≤◌, ◌≡◌, ◌⊎◌, false, Option, none, some, ok, min, max}
use nabu_charger.Prelude.Methods.Ends.{Ends}
use nabu_charger.Smb.Policy.{policy_for}
use nabu_charger.Smb.Icl.{icl_encode}
use nabu_charger.Smb.Icl.Grid.{Fits}
use nabu_charger.Smb.Platform.{ChargerTransport, Clock}
use nabu_charger.Smb.Charger.{Charger, ChargerConfig, State, state_eq}
use nabu_charger.Smb.Charger.Detect.{Detection, pending, ready}
use nabu_charger.Smb.Charger.Apply.{ChargePlan, is_same}
use nabu_charger.Smb.Charger.View.{View}
use nabu_charger.Smb.Runner.{SessionOutcome}

-- An open session with these settings.
abbrev pub Live : ChargerConfig → View → Type 0
Live c w = (w.config ≡ c) × (state_eq w.state State.closed ≡ false)

-- The settings are of the program's types, and the grid fits.
abbrev pub Sound : ChargerConfig → Type 0
Sound c = (c.max_detect_reruns ≤ 255) × Fits c.icl

-- A session that was brought to charge: ready, with the adapter that was found and its policy applied.
abbrev pub Charging : ChargerConfig → SessionOutcome → View → Type 0
Charging c outcome w =
    (w.config ≡ c)
    × (w.state ≡ State.ready)
    × (w.adapter ≡ some outcome.adapter)
    × (outcome.state ≡ State.ready)
    × (outcome.plan.policy ≡ policy_for outcome.adapter c.qc35)
    × (icl_encode c.icl outcome.plan.applied_icl_ua ≡ ok outcome.plan.icl_raw)
    × (outcome.plan.applied_icl_ua ≤ max (min outcome.plan.policy.icl_ua c.max_icl_ua) c.icl.min_ua)

-- What a cycle of monitoring leaves, by its answer.
abbrev pub Cycled : ChargerConfig → View → Option ChargePlan → View → Type 0
Cycled c v none w =
    (w.config ≡ c) × (w.state ≡ v.state) × ((w.adapter ≡ v.adapter) ⊎ (w.adapter ≡ none))
Cycled c v (some plan) w =
    (w.config ≡ c)
    × (w.state ≡ State.ready)
    × (w.adapter ≡ some plan.adapter)
    × (is_same v.adapter plan.adapter ≡ false)
    × (plan.policy ≡ policy_for plan.adapter c.qc35)
    × (plan.applied_icl_ua ≤ max (min plan.policy.icl_ua c.max_icl_ua) c.icl.min_ua)

module _ {W : Type 0} (io : ChargerTransport W) (clock : Clock W) (c : ChargerConfig)
    (sound : Sound c) where
  -- What a step may end in, as seen by the loop.
  abbrev Stepped : Detection → View → Type 0
  Stepped (ready a) w = Live c w
  Stepped (pending ms n) w = Live c w
