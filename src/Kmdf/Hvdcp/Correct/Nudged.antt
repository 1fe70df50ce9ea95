-- ===== src/Kmdf/Hvdcp/Correct/Nudged.antt =====
-- The correction of the bus as a whole, over whichever bus opens.
use nabu_charger.Prelude.{ℕ, ◌≤◌, ◌<◌, ◌≡◌, ◌⊎◌, Bool, true, false, Option}
use nabu_charger.Prelude.Methods.Ends.{Ends}
use nabu_charger.Kmdf.Hvdcp.{HvdcpState, Session, Machine}
use nabu_charger.Kmdf.Hvdcp.Band.{target_vbus_uv, trim_target_uv, window_floor_uv}
use nabu_charger.Kmdf.Hvdcp.Correct.Moves.{Down}
use nabu_charger.Kmdf.Hvdcp.Correct.Bounded.{Trimmed, Boosted}
use nabu_charger.Kmdf.Hvdcp.Steady.{On}

-- What a correction from an estimate of `v` and a count of `n` does, by the number `k` that it reports.
abbrev pub Moved : ℕ → ℕ → ℕ → Bool → ℕ → HvdcpState → Type 0
Moved vbat_uv v n dead k s =
    ((trim_target_uv vbat_uv < v) × Trimmed vbat_uv v n k s)
    ⊎ (((v < target_vbus_uv vbat_uv)
          × ((dead ≡ true) ⊎ (v < window_floor_uv vbat_uv))
          × Boosted vbat_uv v n k s)
        ⊎ (((dead ≡ true) × (window_floor_uv vbat_uv < v) × (k ≤ 1) × Down n k s)
            ⊎ ((k ≡ 0) × (s.pulse_cnt ≡ n))))

module _ {W : Type 0} (m : Machine W) where
  -- The start of a correction.
  abbrev At : ℕ → HvdcpState → Type 0
  At n s = (s.force9v_latched ≡ false) × (s.pulse_cnt ≡ n) × (n ≤ 23)

  module _ (usbin_id : Option ℕ) (vbat_uv v n : ℕ) where
    -- At most one pulse down.
    abbrev OneDown : ℕ → HvdcpState → Type 0
    OneDown k s = (k ≤ 1) × Down n k s

    abbrev Corrected : Bool → ℕ → Session W → Type 0
    Corrected dead k p = On (Moved vbat_uv v n dead k) p
