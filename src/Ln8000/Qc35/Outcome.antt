-- ===== src/Ln8000/Qc35/Outcome.antt =====
-- Which samples authenticate, and at what power.
use nabu_charger.Prelude.{ℕ, ◌≡◌, ◌↔◌, ◌⊎◌, some, ℤ, pos, ◌≤ℤ◌, ◌<ℤ◌, arith}
use nabu_charger.Ln8000.Qc35.{
  authenticated, qc35_authenticate_outcome, decide_qc35_auth_attempt, qc35_detect_window,
  qc35_cap_window, qc35_power_limit_w,
}

abbrev pub Between : ℕ → ℤ → ℕ → Type 0
Between lo v hi = (pos lo ≤ℤ v) × (v ≤ℤ pos hi)

-- An answer in the class of the power.
abbrev pub InClass : ℤ → ℕ → Type 0
InClass cap w =
    (Between 6_650_000 cap 7_350_000 × (w ≡ 18))
    ⊎ ((Between 7_600_000 cap 8_400_000 × (w ≡ 27)) ⊎ (Between 8_550_000 cap 9_800_000 × (w ≡ 40)))

-- Three samples authenticate a power exactly when the first is positive and below 6.4 V, the second
-- strictly between 5.5 V and 6.4 V, and the third in that power's class; the answers between two
-- classes authenticate none.
pub outcome_iff :
    (before det cap : ℤ) (w : ℕ)
    → (qc35_authenticate_outcome before (some det) (some cap) ≡ authenticated w) ↔ (
        (pos 0 <ℤ before)
        × (before <ℤ pos 6_400_000)
        × (pos 5_500_000 <ℤ det)
        × (det <ℤ pos 6_400_000)
        × InClass cap w)
unfolding qc35_authenticate_outcome decide_qc35_auth_attempt qc35_detect_window qc35_cap_window
    qc35_power_limit_w
outcome_iff before det cap w = ground arith
