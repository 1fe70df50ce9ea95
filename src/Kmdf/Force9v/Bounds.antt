-- ===== src/Kmdf/Force9v/Bounds.antt =====
-- The wait always ends, within the hard cap, and reports the highest sample.
use nabu_charger.Prelude.{
  ℕ, zero, suc, ◌+◌, ◌*◌, ◌≤◌, ◌<◌, ◌≡◌, ◌⊎◌, inl, inr, refl, true, false, Option, none, some,
  Bool-cases, Option-cases, leb, ℤ, pos, ◌≤ℤ◌, ◌<ℤ◌, arith,
}
use nabu_charger.Ln8000.Hvdcp.{force9v_step, force9v_hard_cap_ms}
use nabu_charger.Kmdf.Force9v.{Wait, judge, higher, begin, poll, wait_loop, wait_force9v_rise}

-- A round that goes on leaves the time, the samples and the peak as they are.
pub judge-keeps :
    (w : Wait) {w' : Wait}
    → judge w ≡ some w'
    → (w'.waited ≡ w.waited) × (w'.reads ≡ w.reads) × (w'.last ≡ w.last) × (w'.peak ≡ w.peak)
unfolding judge force9v_step
judge-keeps w h = ground arith

below_or_last : (n m : ℕ) → n < m + 1 → (n < m) ⊎ (n ≡ m)
below_or_last n m h = omega arith

module _ (read_vin : ℕ → ℤ) where
  polled_waited :
      (w : Wait) (k : ℕ)
      → w.waited ≡ 50 * k
      → w.waited < 5_000
      → (poll read_vin w).waited ≡ 50 * suc k
  unfolding poll
  polled_waited w k e lt = omega arith

  polled_reads : (w : Wait) (k : ℕ) → w.reads ≡ k + 1 → (poll read_vin w).reads ≡ suc k + 1
  unfolding poll
  polled_reads w k e = omega arith

  polled_time :
      (w : Wait) (k : ℕ)
      → w.waited + 50 * suc k ≡ 1_600
      → (poll read_vin (record w { confirm = 0 })).waited + 50 * k ≡ 1_600
  unfolding poll
  polled_time w k e = omega arith

  abbrev raised : Wait → Wait
  raised w = record w { peak = higher w.last w.peak }

  loop_over :
      (fuel : ℕ) (w : Wait)
      → judge (raised w) ≡ none
      → wait_loop read_vin (suc fuel) w ≡ some (raised w)
  unfolding wait_loop
  loop_over fuel w e = ground arith

  loop_capped :
      (fuel : ℕ) (w : Wait) {w' : Wait}
      → judge (raised w) ≡ some w'
      → leb force9v_hard_cap_ms w'.waited ≡ true
      → wait_loop read_vin (suc fuel) w ≡ some w'
  unfolding wait_loop
  loop_capped fuel w e c = ground arith

  loop_more :
      (fuel : ℕ) (w : Wait) {w' : Wait}
      → judge (raised w) ≡ some w'
      → leb force9v_hard_cap_ms w'.waited ≡ false
      → wait_loop read_vin (suc fuel) w ≡ wait_loop read_vin fuel (poll read_vin w')
  unfolding wait_loop
  loop_more fuel w e c = ground arith

  -- Every sample read so far, the last one included, is at most the peak.
  abbrev pub IsPeak : Wait → Type 0
  IsPeak w = (n : ℕ) → n < w.reads → read_vin n ≤ℤ w.peak

  poll-IsPeak : (w : Wait) → IsPeak w → IsPeak (poll read_vin w)
  unfolding poll
  poll-IsPeak w h n lt = elim (below_or_last n w.reads lt) [
    | inl earlier ↦ ground (arith, h n earlier)
    | inr e ↦ rw e (ground arith)
  ]

  raised-IsPeak : (w : Wait) → IsPeak w → IsPeak (record w { peak = higher w.last w.peak })
  raised-IsPeak w h n lt = ground (arith, h n lt)

  kept-IsPeak : (w w' : Wait) → w'.reads ≡ w.reads → w'.peak ≡ w.peak → IsPeak w → IsPeak w'
  kept-IsPeak w w' e p h n lt = rw p (h n (omega arith))

  abbrev Ended : Option Wait → Type 0
  Ended o = (r : Wait) × (o ≡ some r) × (r.waited ≤ 5_000) × (r.reads ≤ 101) × IsPeak r

  loop-Ended :
      (fuel k : ℕ) (w : Wait)
      → k + fuel ≡ 101
      → k ≤ 100
      → w.waited ≡ 50 * k
      → w.reads ≡ k + 1
      → IsPeak w
      → Ended (wait_loop read_vin fuel w)
  loop-Ended zero k w e lt t n h = absurd (omega arith)
  loop-Ended (suc fuel) k w e lt t n h =
      let v : Wait = raised w in
      elim (Option-cases (judge v)) [
        | inl over ↦
            rw (loop_over fuel w over) (v, refl, omega arith, omega arith, raised-IsPeak w h)
        | inr (w', on) ↦
            let (tk, nk, lk, pk) = judge-keeps v on in
            let peaked : IsPeak w' = kept-IsPeak v w' nk pk (raised-IsPeak w h) in
            elim (Bool-cases (leb force9v_hard_cap_ms w'.waited)) [
              | inl capped ↦
                  rw (loop_capped fuel w on capped) (w', refl, omega arith, omega arith, peaked)
              | inr more ↦ rw (loop_more fuel w on more) (
                  loop-Ended fuel (suc k) (poll read_vin w') (omega arith) (ground arith)
                    (polled_waited w' k (omega arith) (ground arith))
                    (polled_reads w' k (omega arith)) (poll-IsPeak w' peaked))
            ]
      ]

  begin-IsPeak : IsPeak (begin read_vin)
  begin-IsPeak zero lt = omega arith
  begin-IsPeak (suc n) lt = absurd (omega arith)

  -- Whatever the samples are, the wait ends with a result after at most 5 s and 101 samples, and
  -- the peak it reports is at least every sample it read.
  pub wait-ends :
      (r : Wait) × (wait_force9v_rise read_vin ≡ some r)
      × (r.waited ≤ 5_000)
      × (r.reads ≤ 101)
      × IsPeak r
  unfolding wait_force9v_rise
  wait-ends =
      loop-Ended 101 0 (begin read_vin) (omega arith) (omega arith) (omega arith) (omega arith)
        begin-IsPeak

  -- No sample reaches 5.6 V.
  abbrev pub IsSilent : Type 0
  IsSilent = (n : ℕ) → read_vin n <ℤ pos 5_600_000

  judge-silent :
      (w : Wait)
      → w.last <ℤ pos 5_600_000
      → w.deadline ≡ 1_600
      → (w.waited < 1_600 → judge w ≡ some (record w { confirm = 0 }))
        × (1_600 ≤ w.waited → judge w ≡ none)
  unfolding judge force9v_step
  judge-silent w low d = ground arith

  loop-silent :
      (quiet : IsSilent) (rounds fuel : ℕ) (w : Wait)
      → w.waited + 50 * rounds ≡ 1_600
      → rounds < fuel
      → w.deadline ≡ 1_600
      → w.last <ℤ pos 5_600_000
      → (r : Wait) × (wait_loop read_vin fuel w ≡ some r) × (r.waited ≡ 1_600)
  loop-silent quiet rounds zero w e lt d low = absurd (omega arith)
  loop-silent quiet zero (suc fuel) w e lt d low =
      let v : Wait = raised w in
      rw (loop_over fuel w ((judge-silent v low d).1 (omega arith))) (v, refl, omega arith)
  loop-silent quiet (suc rounds) (suc fuel) w e lt d low =
      let v : Wait = raised w in
      let more : leb force9v_hard_cap_ms w.waited ≡ false = ground arith in
      rw (loop_more fuel w ((judge-silent v low d).0 (omega arith)) more) (
        loop-silent quiet rounds fuel (poll read_vin (record v { confirm = 0 }))
          (polled_time v rounds (omega arith)) (omega arith) (unfold poll in d)
          (unfold poll in quiet w.reads))

  -- A source that never reaches 5.6 V holds the bus for exactly the first window, 1.6 s: it is never
  -- granted the extension.
  pub wait-silent :
      IsSilent → (r : Wait) × (wait_force9v_rise read_vin ≡ some r) × (r.waited ≡ 1_600)
  unfolding wait_force9v_rise
  wait-silent quiet =
      loop-silent quiet 32 101 (begin read_vin) (omega arith) (omega arith) refl (quiet 0)
