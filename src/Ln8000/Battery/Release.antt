-- ===== src/Ln8000/Battery/Release.antt =====
-- The immediate release on the hardware's unplug bit, over a history of ticks.
use nabu_charger.Prelude.{ℕ, zero, suc, ◌≤◌, ◌<◌, ◌≡◌, ◌↔◌, Bool, true, false, List, [], ◌∷◌, arith}
use nabu_charger.Ln8000.Battery.{unplug_release, iin_charging_ua}

-- Ticks with the hardware bit and the input current, the newest first, and the caller's counter,
-- which starts at zero.
abbrev pub UnplugHistory : Type 0
UnplugHistory = List (Bool × ℕ)

abbrev pub release_after : UnplugHistory → Bool × ℕ
release_after [] = (false, 0)
release_after ((vac_unplug, iin_ua) ∷ h) = unplug_release vac_unplug iin_ua (release_after h).1

-- The bit is set and no charging current flows.
abbrev pub Gone : Bool × ℕ → Type 0
Gone (vac_unplug, iin_ua) = (vac_unplug ≡ true) × (iin_ua < iin_charging_ua)

abbrev pub GoneFor : ℕ → UnplugHistory → Type 0
GoneFor zero h = Unit
GoneFor (suc k) [] = ⊥
GoneFor (suc k) (t ∷ h) = Gone t × GoneFor k h

counter-GoneFor : (k : ℕ) (h : UnplugHistory) → k ≤ 3 → (k ≤ (release_after h).1) ↔ GoneFor k h
unfolding unplug_release
counter-GoneFor zero h le = ground arith
counter-GoneFor (suc k) [] le = ground arith
counter-GoneFor (suc k) (t ∷ h) le = ground (arith, counter-GoneFor k h)

-- The window is ended on the spot exactly when the three newest ticks all saw the unplug bit with
-- less than 80 mA flowing.
pub release_iff : (h : UnplugHistory) → ((release_after h).0 ≡ true) ↔ GoneFor 3 h
unfolding unplug_release
release_iff [] = ground arith
release_iff (t ∷ h) = ground (arith, counter-GoneFor 2 h)
