-- ===== src/Ln8000/Guard/Settling.antt =====
-- The current decisions settle: an action, once applied, is not repeated on the same sample.
use Prim.Native.String.{String}
use nabu_charger.Prelude.{
  ℕ, ◌+◌, ◌%◌, ◌∙◌, ◌≤◌, ◌<◌, ◌≡◌, ◌↔◌, ◌⊎◌, true, false, Option, some, ok, neg, pos_part, neg_part,
  ◌-◌, ◌≤ℤ◌, arith,
}
use nabu_charger.Ln8000.Codes.{encode_iin_limit, decode_iin_limit}
use nabu_charger.Ln8000.Codes.RoundTrip.{iin_on_grid_iff, iin_rounds_down}
use nabu_charger.Ln8000.Window.{vbat_tracks_converter_rail}
use nabu_charger.Ln8000.Session.{TelemetrySample}
use nabu_charger.Ln8000.Guard.{
  GuardLimits, no_change, reduce_current, restore_current, evaluate, evaluate_current,
  evaluate_applied, is_consistent, restore_iin_ua, cap_to, capped_by,
}

module _ (s : TelemetrySample) (l : GuardLimits) (d : Option ℕ) where
  reduce-settles :
      (a t : ℕ) (r : String)
      → evaluate_current s l a d ≡ reduce_current t r
      → (t < a) × (evaluate_current s l t d ≡ no_change)
  unfolding evaluate_current cap_to
  reduce-settles a t r e = ground arith

  restore-settles :
      (a t : ℕ) (r : String)
      → evaluate_current s l a d ≡ restore_current t r
      → (a < t) × (t ≡ capped_by d (restore_iin_ua l)) × (evaluate_current s l t d ≡ no_change)
  unfolding evaluate_current cap_to
  restore-settles a t r e = ground arith

  -- A reduction always lowers the setpoint, and a setpoint so lowered is left alone on the same
  -- sample: repeated ticks do not creep down.
  pub evaluate-reduce_settles :
      (a t : ℕ) (r : String)
      → evaluate s l (some a) d ≡ reduce_current t r
      → (t < a) × (evaluate s l (some t) d ≡ no_change)
  unfolding evaluate evaluate_applied
  evaluate-reduce_settles a t r e = ground (arith, reduce-settles a t r)

  restore_iin_bounded : is_consistent l ≡ true → restore_iin_ua l ≤ l.iin_max_ua
  unfolding is_consistent restore_iin_ua
  restore_iin_bounded c = ground arith

  capped_by-le : (n own : ℕ) → (capped_by d n ≤ n) × (d ≡ some own → capped_by d n ≤ own)
  capped_by-le n own = ground arith

  restore_current_of :
      (a t : ℕ) (r : String)
      → evaluate s l (some a) d ≡ restore_current t r
      → evaluate_current s l a d ≡ restore_current t r
  unfolding evaluate evaluate_applied
  restore_current_of a t r e = ground arith

  -- Where the guard restores from one setpoint, its decision at any other is the current one.
  restore_elsewhere :
      (a b t : ℕ) (r : String)
      → evaluate s l (some a) d ≡ restore_current t r
      → evaluate s l (some b) d ≡ evaluate_current s l b d
  unfolding evaluate evaluate_applied
  restore_elsewhere a b t r e = ground arith

  -- With consistent limits a restore always raises the setpoint, to the profile's return limit or a
  -- lower deliberate setpoint, never above the maximum, and a setpoint so raised is left alone on
  -- the same sample.
  pub evaluate-restore_settles :
      (a t : ℕ) (r : String)
      → is_consistent l ≡ true
      → evaluate s l (some a) d ≡ restore_current t r
      → (a < t)
        × (t ≤ l.iin_max_ua)
        × (t ≡ capped_by d (restore_iin_ua l))
        × (evaluate s l (some t) d ≡ no_change)
  evaluate-restore_settles a t r c e =
      let (lt, bound, settled) = restore-settles a t r (restore_current_of a t r e) in
      (
        lt,
        omega (arith, bound, (capped_by-le (restore_iin_ua l) 0).0, restore_iin_bounded c),
        bound,
        restore_elsewhere a t t r e ∙ settled,
      )

  restore_below :
      (a b t : ℕ) (r : String)
      → evaluate_current s l a d ≡ restore_current t r
      → b < t
      → evaluate_current s l b d ≡ restore_current t r
  unfolding evaluate_current cap_to
  restore_below a b t r e lt = ground arith

  -- The setpoint that the register then holds is left alone exactly when the restored limit lies on
  -- the register's 50 mA grid and within its field; any other limit is restored on every tick.
  pub evaluate-restore_on_grid :
      (a t code : ℕ) (r : String)
      → evaluate s l (some a) d ≡ restore_current t r
      → encode_iin_limit t ≡ ok code
      → (evaluate s l (some (decode_iin_limit code)) d ≡ no_change)
        ↔ ((t % 50_000 ≡ 0) × (t ≤ 6_350_000))
  evaluate-restore_on_grid a t code r e enc =
      let c = restore_current_of a t r e in
      let held = decode_iin_limit code in
      rw (restore_elsewhere a held t r e) (
        ground (
          arith,
          iin_on_grid_iff t code enc,
          iin_rounds_down t code enc,
          restore_below a held t r c,
          restore-settles a t r c,
        ))

-- The condition under which the guard restores: both the die and the cell have left their band.
restore-left_bands :
    (s : TelemetrySample) (l : GuardLimits) (d : Option ℕ) (a t : ℕ) (r : String)
    → neg 1_000 ≤ℤ l.temp_reduce_dc
    → evaluate_current s l a d ≡ restore_current t r
    → (pos_part s.die_temp_dc + neg_part l.temp_reduce_dc + 30
        ≤ pos_part l.temp_reduce_dc + neg_part s.die_temp_dc)
      × ((vbat_tracks_converter_rail s.vbat_uv s.vbus_uv ≡ true)
          ⊎ (s.vbat_uv ≤ l.vbat_reduce_uv - 50_000))
unfolding evaluate_current cap_to
restore-left_bands s l d a t r lo e = ground arith

reduce-in_band :
    (s : TelemetrySample) (l : GuardLimits) (d : Option ℕ) (a t : ℕ) (r : String)
    → evaluate_current s l a d ≡ reduce_current t r
    → (l.temp_reduce_dc ≤ℤ s.die_temp_dc)
      ⊎ ((l.iin_max_ua < s.iin_ua)
          ⊎ ((vbat_tracks_converter_rail s.vbat_uv s.vbus_uv ≡ false)
              × (l.vbat_reduce_uv ≤ s.vbat_uv)))
unfolding evaluate_current cap_to
reduce-in_band s l d a t r e = ground arith

reduce_current_of :
    (s : TelemetrySample) (l : GuardLimits) (d : Option ℕ) (a t : ℕ) (r : String)
    → evaluate s l (some a) d ≡ reduce_current t r
    → evaluate_current s l a d ≡ reduce_current t r
unfolding evaluate evaluate_applied
reduce_current_of s l d a t r e = ground arith

-- Between a sample that reduces the current and one that restores it there is a gap: the die is
-- 3.0 degrees cooler, or the cell 50 mV lower, or the first sample was over the current limit, or
-- the second shows the converter rail in place of the cell.
pub evaluate-hysteresis :
    (l : GuardLimits) (hot cool : TelemetrySample) (d₁ d₂ : Option ℕ) (a₁ a₂ t₁ t₂ : ℕ)
    (r₁ r₂ : String)
    → neg 1_000 ≤ℤ l.temp_reduce_dc
    → 50_000 ≤ l.vbat_reduce_uv
    → evaluate hot l (some a₁) d₁ ≡ reduce_current t₁ r₁
    → evaluate cool l (some a₂) d₂ ≡ restore_current t₂ r₂
    → (pos_part cool.die_temp_dc + neg_part hot.die_temp_dc + 30
        ≤ pos_part hot.die_temp_dc + neg_part cool.die_temp_dc)
      ⊎ ((cool.vbat_uv + 50_000 ≤ hot.vbat_uv)
          ⊎ ((l.iin_max_ua < hot.iin_ua)
              ⊎ (vbat_tracks_converter_rail cool.vbat_uv cool.vbus_uv ≡ true)))
evaluate-hysteresis l hot cool d₁ d₂ a₁ a₂ t₁ t₂ r₁ r₂ lo band e₁ e₂ = ground (
  arith,
  reduce-in_band hot l d₁ a₁ t₁ r₁ (reduce_current_of hot l d₁ a₁ t₁ r₁ e₁),
  restore-left_bands cool l d₂ a₂ t₂ r₂ lo (restore_current_of cool l d₂ a₂ t₂ r₂ e₂),
)
