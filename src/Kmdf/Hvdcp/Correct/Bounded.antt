-- ===== src/Kmdf/Hvdcp/Correct/Bounded.antt =====
-- The loops of a correction and the choice between them: no pulse past the target.
use nabu_charger.Prelude.{
  ℕ, zero, suc, ◌+◌, ◌-◌, ◌*◌, ◌≤◌, ◌<◌, ◌≡◌, inr, ◌⊎◌, arith, pos, sat_add, sat_sub_i32,
}
use nabu_charger.Prelude.Methods.{pure}
use nabu_charger.Prelude.Methods.Ends.{Ends, bind-Ends, branch-Ends, pure-Ends}
use nabu_charger.Kmdf.Hvdcp.{HvdcpError, HvdcpState, Session, Bus, Machine}
use nabu_charger.Kmdf.Hvdcp.Band.{target_vbus_uv}
use nabu_charger.Kmdf.Hvdcp.Band.Target.{target_vbus-bounds}
use nabu_charger.Kmdf.Hvdcp.Correct.{trim_loop, boost_loop, sat_add_i32}
use nabu_charger.Kmdf.Hvdcp.Correct.Moves.{Down, Up, Sent, Sent-Ends, dec-Ends, inc-Ends}
use nabu_charger.Kmdf.Hvdcp.Steady.{On}

-- `k` pulses down, each sent while the estimate was above the target.
abbrev pub Trimmed : ℕ → ℕ → ℕ → ℕ → HvdcpState → Type 0
Trimmed vbat_uv v n k s =
    Down n k s × (k ≤ 20) × ((k ≡ 0) ⊎ (target_vbus_uv vbat_uv + k * 200_000 < v + 200_000))

-- `k` pulses up, each sent while the estimate was below the target.
abbrev pub Boosted : ℕ → ℕ → ℕ → ℕ → HvdcpState → Type 0
Boosted vbat_uv v n k s =
    Up n k s × (k ≤ 23) × ((k ≡ 0) ⊎ (v + k * 200_000 < target_vbus_uv vbat_uv + 200_000))

-- Of a method that does not fail.
abbrev pub Never : {W : Type 0} → HvdcpError → Session W → Type 0
Never e = On (λ s. ⊥)

sat_add_one : (k : ℕ) → k ≤ 23 → sat_add k 1 ≡ k + 1
sat_add_one k h = omega arith

step_down : (x : ℕ) → 200_000 ≤ x → sat_sub_i32 (pos x) 200_000 ≡ pos (x - 200_000)
step_down x h = ground arith

step_up : (x : ℕ) → x ≤ 10_000_000 → sat_add_i32 (pos x) 200_000 ≡ pos (x + 200_000)
step_up x h = ground arith

module _ {W : Type 0} (m : Machine W) (bus : Bus W) (vbat_uv v n : ℕ) where
  stopped :
      (k : ℕ)
      → k ≤ 20
      → ((k ≡ 0) ⊎ (target_vbus_uv vbat_uv + k * 200_000 < v + 200_000))
      → Ends (On {W = W} (Down n k)) (pure k) (λ j. On (Trimmed vbat_uv v n j)) Never
  stopped k size h = pure-Ends k (λ p d. record { on = (d.on, size, h) })

  pub trim_loop-Ends :
      (left dec x : ℕ)
      → dec + left ≤ 20
      → x + dec * 200_000 ≡ v
      → ((dec ≡ 0) ⊎ (target_vbus_uv vbat_uv + dec * 200_000 < v + 200_000))
      → Ends
          (On (Down n dec))
          (trim_loop m bus vbat_uv left dec (pos x))
          (λ k. On (Trimmed vbat_uv v n k))
          Never
  unfolding trim_loop
  trim_loop-Ends zero dec x size sum h = stopped dec (omega arith) h
  trim_loop-Ends (suc left) dec x size sum h =
      let (low, high) = target_vbus-bounds vbat_uv in
      branch-Ends _ _ _
        (λ c.
          let above : target_vbus_uv vbat_uv < x = ground arith in
          bind-Ends (λ sent. On (Sent (Down n (dec + 1)) (Down n dec) sent)) _ _
            (dec-Ends m bus n dec)
            (λ sent.
              Sent-Ends sent
                (rw (sat_add_one dec (omega arith), step_down x (omega arith))
                  (trim_loop-Ends left (dec + 1) (x - 200_000) (omega arith) (omega arith)
                    (inr (omega arith))))
                (stopped dec (omega arith) h)))
        (λ c. stopped dec (omega arith) h)

  reached :
      (k : ℕ)
      → k ≤ 23
      → ((k ≡ 0) ⊎ (v + k * 200_000 < target_vbus_uv vbat_uv + 200_000))
      → Ends (On {W = W} (Up n k)) (pure k) (λ j. On (Boosted vbat_uv v n j)) Never
  reached k size h = pure-Ends k (λ p d. record { on = (d.on, size, h) })

  pub boost_loop-Ends :
      (left inc x : ℕ)
      → inc + left ≤ 23
      → v + inc * 200_000 ≡ x
      → ((inc ≡ 0) ⊎ (v + inc * 200_000 < target_vbus_uv vbat_uv + 200_000))
      → Ends
          (On (Up n inc))
          (boost_loop m bus vbat_uv left inc (pos x))
          (λ k. On (Boosted vbat_uv v n k))
          Never
  unfolding boost_loop
  boost_loop-Ends zero inc x size sum h = reached inc (omega arith) h
  boost_loop-Ends (suc left) inc x size sum h =
      let (low, high) = target_vbus-bounds vbat_uv in
      branch-Ends _ _ _
        (λ c.
          let below : x < target_vbus_uv vbat_uv = ground arith in
          let again : (v + (inc + 1) * 200_000 < target_vbus_uv vbat_uv + 200_000) = omega arith in
          bind-Ends (λ sent. On (Sent (Up n (inc + 1)) (Up n inc) sent)) _ _ (inc-Ends m bus n inc)
            (λ sent.
              Sent-Ends sent
                (rw (sat_add_one inc (omega arith), step_up x (omega arith))
                  (branch-Ends _ _ _ (λ past. reached (inc + 1) (omega arith) (inr again))
                    (λ on.
                      boost_loop-Ends left (inc + 1) (x + 200_000) (omega arith) (omega arith)
                        (inr again))))
                (reached inc (omega arith) h)))
        (λ c. reached inc (omega arith) h)
