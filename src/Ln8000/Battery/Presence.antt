-- ===== src/Ln8000/Battery/Presence.antt =====
-- The adapter verdict of one tick, and the online flag over ticks that carry no verdict.
use nabu_charger.Prelude.{
  ℕ, ◌+◌, ◌≤◌, ◌<◌, ◌≡◌, ◌↔◌, ◌⊎◌, refl, Bool, true, false, Option, none, some, List, [], ◌∷◌,
  arith,
}
use nabu_charger.Ln8000.Window.{vin_is_doubled_vbat}
use nabu_charger.Ln8000.Battery.Holding.{History, held_after}
use nabu_charger.Ln8000.Battery.{
  Hold, update_evidence, is_reflection_tick, online_raw, online_raw_with_evidence, adc_wake_needed,
}

-- One telemetry tick as the verdict reads it.
pub record Tick : Type 0 where
  pub vbus_uv : ℕ
  pub vbat_uv : ℕ
  pub iin_ua : ℕ
  pub vac_unplug : Bool
  pub usable : Bool

abbrev pub evidence : Tick → Option Bool
evidence t = online_raw_with_evidence t.vbus_uv t.vbat_uv t.iin_ua t.vac_unplug t.usable

-- Current into the pack: 80 mA or more from an input of 4.2 V or more.
abbrev pub Delivers : Tick → Type 0
Delivers t = (4_200_000 ≤ t.vbus_uv) × (80_000 ≤ t.iin_ua)

-- A readable tick with current into the pack is an adapter, whatever the unplug bit and the cell
-- say.
evidence-Delivers : (t : Tick) → t.usable ≡ true → Delivers t → evidence t ≡ some true
unfolding online_raw_with_evidence online_raw is_reflection_tick
evidence-Delivers t u (v, i) = ground arith

-- A tick speaks against the adapter only for a reason: either the hardware bit says that the
-- supply is gone and no current contradicts it, or a readable node without current is below 4.2 V
-- or within 200 mV of the cell.
pub evidence_absent :
    (t : Tick)
    → t.vbat_uv ≤ 4_000_000_000
    → evidence t ≡ some false
    → ((t.vac_unplug ≡ true) × ((t.usable ≡ false) ⊎ ¬ Delivers t))
      ⊎ ((t.usable ≡ true)
          × ¬ Delivers t
          × ((t.vbus_uv < 4_200_000) ⊎ (t.vbus_uv < t.vbat_uv + 200_000)))
unfolding online_raw_with_evidence online_raw is_reflection_tick
evidence_absent t small e = ground arith

-- A tick carries no verdict exactly when the hardware bit is clear and the readings are unusable,
-- or show no current and an input of 4.6 V or more at twice the cell.
evidence-none_iff :
    (t : Tick)
    → (evidence t ≡ none) ↔ (
        (t.vac_unplug ≡ false)
        × ((t.usable ≡ false)
            ⊎ (¬ Delivers t
                × (4_600_000 ≤ t.vbus_uv)
                × (vin_is_doubled_vbat t.vbat_uv t.vbus_uv ≡ true))))
unfolding online_raw_with_evidence is_reflection_tick
evidence-none_iff t = ground arith

-- Ticks with their times, the newest first, as the flag sees them.
abbrev pub judged : List (Tick × ℕ) → History
judged [] = []
judged ((t, now) ∷ h) = (evidence t, now) ∷ judged h

-- Every tick is unreadable or shows the pump's own reflection, and the hardware bit is clear.
abbrev pub AllSilent : List (Tick × ℕ) → Type 0
AllSilent [] = Unit
AllSilent ((t, _) ∷ h) =
    (t.vac_unplug ≡ false)
    × ((t.usable ≡ false) ⊎ (is_reflection_tick t.vbus_uv t.vbat_uv t.iin_ua t.vac_unplug ≡ true))
    × AllSilent h

evidence-silent :
    (t : Tick)
    → t.vac_unplug ≡ false
    → (t.usable ≡ false) ⊎ (is_reflection_tick t.vbus_uv t.vbat_uv t.iin_ua t.vac_unplug ≡ true)
    → evidence t ≡ none
unfolding online_raw_with_evidence
evidence-silent t v q = ground arith

-- However long the readings sleep or mirror the pump, and whatever the clock does meanwhile, the
-- online flag and its window stay as they were until a tick carries a verdict.
pub silent-unmoved :
    (hold_ms : ℕ) (start : Hold) (h : List (Tick × ℕ))
    → AllSilent h
    → held_after hold_ms start (judged h) ≡ start
unfolding update_evidence
silent-unmoved hold_ms start [] q = refl
silent-unmoved hold_ms start ((t, now) ∷ h) (v, s, q) =
    rw (evidence-silent t v s) (silent-unmoved hold_ms start h q)

-- A sleeping ADC is woken exactly when the hardware says that a supply is there and the readings
-- are unusable, and is let back to sleep exactly when the supply is gone.
adc_wake_iff :
    (usable vac_unplug : Bool)
    → ((adc_wake_needed usable vac_unplug ≡ some true) ↔ ((vac_unplug ≡ false) × (usable ≡ false)))
      × ((adc_wake_needed usable vac_unplug ≡ some false) ↔ (vac_unplug ≡ true))
unfolding adc_wake_needed
adc_wake_iff usable vac_unplug = ground arith
