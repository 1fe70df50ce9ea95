-- ===== src/Ln8000/Status/Faults.antt =====
-- What the status verdicts say of one another.
use nabu_charger.Prelude.{ℕ, ◌<◌, ◌≡◌, ◌⊎◌, refl, Bool, true, false, ◌||◌, not, bit_or, arith}
use nabu_charger.Prelude.Bits.{passes, passes-each}
use nabu_charger.Ln8000.Regs
use nabu_charger.Ln8000.Mode.{has_bits}
use nabu_charger.Ln8000.Status.{Status, volt_qual, has_critical_fault, fault_summary}

bool_eq : Bool → Bool → Bool
bool_eq true b = b
bool_eq false b = not b

bool_eq_sound : (a b : Bool) → bool_eq a b ≡ true → a ≡ b
unfolding bool_eq
bool_eq_sound true b h = ground arith
bool_eq_sound false b h = ground arith

-- The group tests of the two status bytes, bit by bit.
fault1_group :
    (f : ℕ)
    → f < 256
    → has_bits f (bit_or Regs.fault1_watchdog (bit_or Regs.fault1_vbat_ov Regs.fault1_vac_ov)) ≡ (
        has_bits f Regs.fault1_watchdog
        || (has_bits f Regs.fault1_vbat_ov || has_bits f Regs.fault1_vac_ov))
unfolding passes bool_eq
fault1_group f h = bool_eq_sound _ _ (
    passes-each
      (λ f. bool_eq (has_bits f 0xc8) (has_bits f 0x80 || (has_bits f 0x40 || has_bits f 0x08))) 256
      refl f h)

safety_group :
    (s : ℕ)
    → s < 256
    → has_bits s (bit_or Regs.safety_ntc_shutdown Regs.safety_temp_max)
      ≡ (has_bits s Regs.safety_ntc_shutdown || has_bits s Regs.safety_temp_max)
unfolding passes bool_eq
safety_group s h =
    bool_eq_sound _ _ (
      passes-each (λ s. bool_eq (has_bits s 0x48) (has_bits s 0x08 || has_bits s 0x40)) 256 refl s
        h)

-- A clean voltage group has none of its named bits set.
vfaults_clean :
    (f : ℕ)
    → f < 256
    → (has_bits f Regs.fault1_vfaults_mask
        || not (has_bits f Regs.fault1_vbat_ov || has_bits f Regs.fault1_vac_ov))
      ≡ true
unfolding passes
vfaults_clean f h =
    passes-each (λ f. has_bits f 0x7f || not (has_bits f 0x40 || has_bits f 0x08)) 256 refl f h

-- An input that the vendor's test calls valid can be in a critical fault only through an expired
-- watchdog, an NTC shutdown or the maximum die temperature: never through an overvoltage.
pub volt_qual-critical :
    (s : Status) (charging : Bool)
    → s.fault1_sts < 256
    → s.safety_sts < 256
    → volt_qual s charging ≡ true
    → has_critical_fault s ≡ true
    → (has_bits s.fault1_sts Regs.fault1_watchdog ≡ true)
      ⊎ ((has_bits s.safety_sts Regs.safety_ntc_shutdown ≡ true)
          ⊎ (has_bits s.safety_sts Regs.safety_temp_max ≡ true))
unfolding volt_qual has_critical_fault
volt_qual-critical s charging hf hs valid critical = ground (
  arith,
  fault1_group s.fault1_sts hf,
  safety_group s.safety_sts hs,
  vfaults_clean s.fault1_sts hf,
)

-- A critical fault is named in the journal: its summary is one of the five critical names or, for a
-- watchdog behind a latched overcurrent, the name of that latch; it is never empty.
fault_summary-critical :
    (s : Status)
    → s.fault1_sts < 256
    → s.safety_sts < 256
    → has_critical_fault s ≡ true
    → (fault_summary s ≡ "temp_max")
      ⊎ ((fault_summary s ≡ "ntc_shutdown")
          ⊎ ((fault_summary s ≡ "vbat_ov")
              ⊎ ((fault_summary s ≡ "vac_ov")
                  ⊎ ((fault_summary s ≡ "watchdog")
                      ⊎ ((fault_summary s ≡ "iin_oc")
                          × (has_bits s.fault1_sts Regs.fault1_watchdog ≡ true))))))
unfolding has_critical_fault fault_summary
fault_summary-critical s hf hs critical =
    ground (arith, fault1_group s.fault1_sts hf, safety_group s.safety_sts hs)
