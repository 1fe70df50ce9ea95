-- ===== src/Ln8000/Hvdcp/Elevation.antt =====
-- What the promotion by the QC-charger bit does to the elevation path.
use nabu_charger.Prelude.{ℕ, ◌<◌, ◌≡◌, ◌↔◌, refl, Bool, true, false, ◌||◌, ◌&&◌, not, bit_or, arith}
use nabu_charger.Prelude.Bits.{passes, passes-each}
use nabu_charger.Ln8000.Mode.{has_bits}
use nabu_charger.Ln8000.Hvdcp.{
  qc3_pulse, reject, promote_qc_charger, apsd_elevate_path, apsd_bit_dcp, apsd_bit_qc2,
  apsd_bit_qc3, apsd_stat_bit_qc_charger,
}

promoted_bits :
    (r : ℕ)
    → r < 256
    → (has_bits (bit_or (bit_or r apsd_bit_dcp) apsd_bit_qc2) apsd_bit_qc2
        && (has_bits r apsd_bit_qc3
            || not (has_bits (bit_or (bit_or r apsd_bit_dcp) apsd_bit_qc2) apsd_bit_qc3)))
      ≡ true
unfolding passes
promoted_bits r h =
    passes-each
      (λ r.
        has_bits (bit_or (bit_or r 8) 0x20) 0x20
        && (has_bits r 0x40 || not (has_bits (bit_or (bit_or r 8) 0x20) 0x40)))
      256 refl r h

-- Once promoted, a result is pulsed exactly when it was QC3 or a continuous detect already, is
-- rejected exactly when neither it nor the status shows any of the charger bits, and is forced to
-- 9 V otherwise: the promotion widens what is elevated and never takes QC3 away.
promoted_path :
    (result status : ℕ) (continuous : Bool)
    → result < 256
    → let path = apsd_elevate_path (promote_qc_charger result status) continuous in
      ((path ≡ qc3_pulse) ↔ ((has_bits result apsd_bit_qc3 || continuous) ≡ true))
      × ((path ≡ reject) ↔ (
          (has_bits result apsd_bit_qc3 || continuous ≡ false)
          × (has_bits result apsd_bit_qc2 ≡ false)
          × (has_bits result apsd_bit_dcp ≡ false)
          × (has_bits status apsd_stat_bit_qc_charger ≡ false)))
unfolding promote_qc_charger apsd_elevate_path
promoted_path result status continuous h = ground (arith, promoted_bits result h)
