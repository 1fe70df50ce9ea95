-- ===== src/Smb/Icl/Grid.antt =====
-- The rounding to any grid that fits a `u32`.
use native.Mathlib.Nat.{zero-div, mul-div-le, lt-mul-div-succ, mul-div_cancel_left}
use nabu_charger.Prelude.{
  ℕ, ◌+◌, ◌*◌, ◌-◌, ◌/◌, ◌≤◌, ◌<◌, ◌≡◌, refl, ◌⊎◌, inl, inr, Bool-cases, ◌==◌, ltb, leb,
  if◌then◌else◌, min, max, u32_max, ok, arith, false,
}
use nabu_charger.Smb.Icl.{IclEncoding, icl_encode, icl_decode, quantize_down}

-- The grid has steps and its top fits the word.
abbrev pub Fits : IclEncoding → Type 0
Fits g = (0 < g.step_ua) × (g.min_ua + g.step_ua * g.raw_max ≤ u32_max)

-- The number of whole steps of a current above the bottom of the grid, at most the largest code.
abbrev pub steps_of : IclEncoding → ℕ → ℕ
steps_of g x = min ((x - g.min_ua) / g.step_ua) g.raw_max

fewer_steps : (s n top : ℕ) → s * min n top ≤ s * n
fewer_steps s n top = grind arith

capped : (n top : ℕ) → (if ltb top n then top else n) ≡ min n top
capped n top = ground arith

module _ (g : IclEncoding) (fits : Fits g) where
  product_le : (r : ℕ) → r ≤ g.raw_max → g.step_ua * r ≤ g.step_ua * g.raw_max
  product_le r h = grind arith

  decode_exact : (r : ℕ) → r ≤ g.raw_max → icl_decode g r ≡ g.min_ua + g.step_ua * r
  unfolding icl_decode
  decode_exact r h = omega (arith, product_le r h, fits.1)

  quantize_steps : (x : ℕ) → quantize_down g x ≡ g.min_ua + g.step_ua * steps_of g x
  unfolding quantize_down
  quantize_steps x =
      let some_step : (g.step_ua == 0) ≡ false = ground (arith, fits.0) in
      elim (Bool-cases (leb x g.min_ua)) [
        | inl low ↦
            let bottom : x - g.min_ua ≡ 0 = ground arith in
            let none_up : min 0 g.raw_max ≡ 0 = omega arith in
            rw (some_step, low, bottom, zero-div g.step_ua, none_up) (ground arith)
        | inr high ↦
            rw (some_step, high, capped ((x - g.min_ua) / g.step_ua) g.raw_max)
              (decode_exact (steps_of g x) (omega arith))
      ]

  encode_steps : (r : ℕ) → r ≤ g.raw_max → icl_encode g (g.min_ua + g.step_ua * r) ≡ ok r
  unfolding icl_encode
  encode_steps r h =
      let back : g.step_ua * r / g.step_ua ≡ r = mul-div_cancel_left r fits.0 in
      let over : g.min_ua + g.step_ua * r - g.min_ua ≡ g.step_ua * r = omega arith in
      rw (over, back) (ground arith)

  below_input : (x : ℕ) → g.min_ua + g.step_ua * steps_of g x ≤ max x g.min_ua
  below_input x =
      let q = (x - g.min_ua) / g.step_ua in
      let whole : g.step_ua * q ≤ x - g.min_ua = mul-div-le (x - g.min_ua) g.step_ua in
      let fewer : g.step_ua * min q g.raw_max ≤ g.step_ua * q = fewer_steps g.step_ua q g.raw_max in
      omega arith

  near_input :
      (x : ℕ)
      → (x < g.min_ua + g.step_ua * steps_of g x + g.step_ua)
        ⊎ (g.min_ua + g.step_ua * steps_of g x ≡ icl_decode g g.raw_max)
  near_input x =
      let q = (x - g.min_ua) / g.step_ua in
      elim (Bool-cases (leb q g.raw_max)) [
        | inl inside ↦
            let same : steps_of g x ≡ q = ground arith in
            let next : x - g.min_ua < g.step_ua * (q + 1) = lt-mul-div-succ (x - g.min_ua) fits.0 in
            rw same (inl (grind arith))
        | inr top ↦
            let same : steps_of g x ≡ g.raw_max = ground arith in
            rw (same, decode_exact g.raw_max (omega arith)) (inr refl)
      ]

  -- On a grid that has steps and fits the word, the rounding of any current is encodable, at or below
  -- the current unless the current is below the grid, which gives its bottom; and it is less than one
  -- step below the current unless it is the top of the grid.
  pub quantize_down-encodes :
      (x : ℕ)
      → (icl_encode g (quantize_down g x) ≡ ok (steps_of g x))
        × (icl_decode g (steps_of g x) ≡ quantize_down g x)
        × (quantize_down g x ≤ max x g.min_ua)
        × ((x < quantize_down g x + g.step_ua) ⊎ (quantize_down g x ≡ icl_decode g g.raw_max))
  quantize_down-encodes x =
      let below : steps_of g x ≤ g.raw_max = omega arith in
      let e = quantize_steps x in
      rw e (
        encode_steps (steps_of g x) below,
        decode_exact (steps_of g x) below,
        below_input x,
        near_input x,
      )
