-- ===== src/Kmdf/Guarding/Raised.antt =====
-- The guard never connects a raised input to the battery, and never keeps an overheated pump
-- running there for more than one tick.
use Prim.Native.String.{String}
use nabu_charger.Prelude.{ℕ, ◌≡◌, ◌⊎◌, ◌<◌, inl, inr, refl, ℤ, pos, ◌≤ℤ◌, arith}
use nabu_charger.Ln8000.Mode.{standby}
use nabu_charger.Ln8000.Bus.{RegisterBus}
use nabu_charger.Ln8000.Guard.{
  GuardLimits, GuardAction, no_change, reduce_current, restore_current, fallback_to_bypass, stop,
}
use nabu_charger.Ln8000.Guard.Decision.{resolve_bypass-outcome}
use nabu_charger.Ln8000.Pump.{Pump}
use nabu_charger.Ln8000.Pump.Setup.{set_op_mode, set_iin_limit}
use nabu_charger.Kmdf.Guarding.{resolved, apply_guard}

module _ {B : Type 0} (io : RegisterBus B) where
  -- The pump was left alone, got a current limit, or was put into standby.
  abbrev pub IsSpared : Pump B → Pump B → Type 0
  IsSpared p q =
      (q ≡ p)
      ⊎ (((to_ua : ℕ) × (q ≡ (set_iin_limit io to_ua p).1)) ⊎ (q ≡ (set_op_mode io standby p).1))

  -- From 6 V at the input on, no action of the guard asks for 1:1: the pump is left alone, gets a
  -- current limit, or is put into standby.
  pub apply_guard-IsSpared :
      (action : GuardAction) (vin_uv : ℤ) (vbat_uv : ℕ) (l : GuardLimits) (strikes : ℕ) (p : Pump B)
      → pos 6_000_000 ≤ℤ vin_uv
      → IsSpared p (apply_guard io action vin_uv vbat_uv l strikes p).0
  unfolding apply_guard resolved
  apply_guard-IsSpared no_change vin_uv vbat_uv l strikes p h = inl refl
  apply_guard-IsSpared (reduce_current a r) vin_uv vbat_uv l strikes p h = inr (inl (a, refl))
  apply_guard-IsSpared (restore_current a r) vin_uv vbat_uv l strikes p h = inr (inl (a, refl))
  apply_guard-IsSpared (stop r) vin_uv vbat_uv l strikes p h = inr (inr refl)
  apply_guard-IsSpared (fallback_to_bypass r) vin_uv vbat_uv l strikes p h =
      elim (resolve_bypass-outcome vin_uv vbat_uv strikes l) [
        | inl (lo, hi, e) ↦ absurd (omega arith)
        | inr (out, inl (z, e)) ↦ rw e (inr (inl (l.iin_floor_ua, refl)))
        | inr (out, inr (z, e)) ↦ rw e (inr (inr refl))
      ]

  denied_counts :
      (r : String) (v : ℤ) (b : ℕ) (l : GuardLimits) (strikes : ℕ) (p : Pump B)
      → pos 6_000_000 ≤ℤ v
      → 0 < (apply_guard io (fallback_to_bypass r) v b l strikes p).1
  unfolding apply_guard resolved
  denied_counts r v b l strikes p h = elim (resolve_bypass-outcome v b strikes l) [
    | inl (lo, hi, e) ↦ absurd (omega arith)
    | inr (out, inl (z, e)) ↦ rw e (omega arith)
    | inr (out, inr (z, e)) ↦ rw e z
  ]

  denied_again_stops :
      (r : String) (v : ℤ) (b : ℕ) (l : GuardLimits) (strikes : ℕ) (q : Pump B)
      → pos 6_000_000 ≤ℤ v
      → 0 < strikes
      → (apply_guard io (fallback_to_bypass r) v b l strikes q).0 ≡ (set_op_mode io standby q).1
  unfolding apply_guard resolved
  denied_again_stops r v b l strikes q h n = elim (resolve_bypass-outcome v b strikes l) [
    | inl (lo, hi, e) ↦ absurd (omega arith)
    | inr (out, inl (z, e)) ↦ absurd (omega arith)
    | inr (out, inr (z, e)) ↦ rw e refl
  ]

  -- Two ticks in a row that demand 1:1 at an input from 6 V on end in standby, whatever the pump
  -- did in between.
  pub apply_guard-two_strikes :
      (r r' : String) (v v' : ℤ) (b b' : ℕ) (l : GuardLimits) (strikes : ℕ) (p q : Pump B)
      → pos 6_000_000 ≤ℤ v
      → pos 6_000_000 ≤ℤ v'
      → let (p', counted) = apply_guard io (fallback_to_bypass r) v b l strikes p in
        (apply_guard io (fallback_to_bypass r') v' b' l counted q).0 ≡ (set_op_mode io standby q).1
  apply_guard-two_strikes r r' v v' b b' l strikes p q h h' =
      denied_again_stops r' v' b' l (apply_guard io (fallback_to_bypass r) v b l strikes p).1 q h'
        (denied_counts r v b l strikes p h)
