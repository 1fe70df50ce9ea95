-- ===== src/Kmdf/Hvdcp/Waits/Enough.antt =====
-- The polls end by themselves: what stands for a loop out of rounds is never reached.
use nabu_charger.Prelude.{
  ℕ, zero, suc, ◌+◌, ◌*◌, ◌≤◌, ◌≡◌, refl, ap, Bool, true, false, Option, none, some, Result, ok,
  err, leb, sat_add, arith, ℤ,
}
use nabu_charger.Prelude.Methods.{Method, next, ◌>>=◌}
use nabu_charger.Ln8000.Hvdcp.{force9v_hard_cap_ms}
use nabu_charger.Kmdf.Force9v.{Wait}
use nabu_charger.Kmdf.Force9v.Bounds.{judge-keeps}
use nabu_charger.Kmdf.Hvdcp.{Session, Bus, Machine, Op}
use nabu_charger.Kmdf.Hvdcp.Access.{act, ask}
use nabu_charger.Kmdf.Hvdcp.Waits.{
  answered, poll_until, sample_vin, wait_vin_window, sample_apsd, or_timeout, wait_apsd_done,
  qc35_vin_poll_ms, capped, judged, peaked, sampled, rise_loop, first_sample, wait_rise, read_vin,
}

-- The same outcome from every state.
abbrev Same : {W A : Type 0} → Op W A → Op W A → Type 0
Same {W} k l = (p : Session W) → k p ≡ l p

next-Same :
    {W A C E : Type 0} (f g : A → Method W E C)
    → ((a : A) (s : W) → f a s ≡ g a s)
    → (o : Result A E × W) → next f o ≡ next g o
next-Same f g h (ok a, s) = h a s
next-Same f g h (err e, s) = refl

module _ {W A : Type 0} (m : Machine W) (sample : Op W (Option A)) (timeout_ms poll_ms : ℕ)
    (e e' : Op W (Option A)) where
  answered-Same :
      (a : Option A) (late : Bool) (k k' : Op W (Option A))
      → (late ≡ false → Same k k')
      → Same
          (answered m sample timeout_ms poll_ms e a late k)
          (answered m sample timeout_ms poll_ms e' a late k')
  unfolding ◌>>=◌ act
  answered-Same (some a) late k k' h p = refl
  answered-Same none true k k' h p = refl
  answered-Same none false k k' h p = h refl (record p { world = m.sleep poll_ms p.world })

  pub poll_until-Same :
      (left waited : ℕ)
      → timeout_ms ≤ waited + left * poll_ms
      → waited + left * poll_ms ≤ 4_000_000_000
      → Same
          (poll_until m sample timeout_ms poll_ms e (suc left) waited)
          (poll_until m sample timeout_ms poll_ms e' (suc left) waited)
  unfolding poll_until ◌>>=◌
  poll_until-Same zero waited h b p =
      next-Same _ _
        (λ a s. answered-Same a (leb timeout_ms waited) _ _ (λ c. absurd (ground arith)) s)
        (sample p)
  poll_until-Same (suc left) waited h b p =
      let step : sat_add waited poll_ms ≡ waited + poll_ms = omega arith in
      next-Same _ _
        (λ a s.
          answered-Same a (leb timeout_ms waited) _ _
            (λ c. rw step (poll_until-Same left (waited + poll_ms) (omega arith) (omega arith))) s)
        (sample p)

module _ {W : Type 0} (m : Machine W) where
  capped-Same :
      (w : Wait) (late : Bool) (k k' : Wait → Op W Wait)
      → (late ≡ false → (v : ℤ) → Same (k (sampled m w v)) (k' (sampled m w v)))
      → Same (capped m w late k) (capped m w late k')
  unfolding ◌>>=◌ act ask
  capped-Same w true k k' h p = refl
  capped-Same w false k k' h p =
      let q : Session W = record p { world = m.sleep 50 p.world } in
      h refl (m.vin q.world).0 (record q { world = (m.vin q.world).1 })

  judged-Same :
      (j : Option Wait) (w : Wait) (k k' : Wait → Op W Wait)
      → ((w' : Wait)
          → j ≡ some w'
          → leb force9v_hard_cap_ms w'.waited ≡ false
          → (v : ℤ) → Same (k (sampled m w' v)) (k' (sampled m w' v)))
      → Same (judged m j w k) (judged m j w k')
  judged-Same none w k k' h p = refl
  judged-Same (some w') w k k' h p = capped-Same w' _ k k' (h w' refl) p

  rise_loop-Same :
      (e e' : Wait → Op W Wait) (left : ℕ) (w : Wait)
      → 5_000 ≤ w.waited + left * 50
      → w.waited + left * 50 ≤ 4_000_000_000
      → Same (rise_loop m e (suc left) w) (rise_loop m e' (suc left) w)
  unfolding rise_loop
  rise_loop-Same e e' zero w h b = judged-Same _ _ _ _ (λ w' j late v.
      let (same, reads, last, peak) = judge-keeps (peaked m w) j in absurd (ground arith))
  rise_loop-Same e e' (suc left) w h b = judged-Same _ _ _ _ (λ w' j late v.
      let (same, reads, last, peak) = judge-keeps (peaked m w) j in
      rise_loop-Same e e' left (sampled m w' v) (omega arith) (omega arith))

  -- Every poll ends by itself: with any method in the place of a loop that is out of rounds, the wait for
  -- a voltage (of up to 250 ms), the wait for the detection and the wait for 9 V answer the same and leave
  -- the same state, from every state and on every machine.
  pub waits-end :
      (pred : ℤ → Bool) (timeout_ms : ℕ) (bus : Bus W) (e : Op W (Option ℤ))
      (e' : Op W (Option (Unit {0}))) (e'' : Wait → Op W Wait) (p : Session W)
      → timeout_ms ≤ 250
      → (poll_until m (sample_vin m pred) timeout_ms qc35_vin_poll_ms e 15 0 p
          ≡ wait_vin_window m timeout_ms pred p)
        × ((poll_until m (sample_apsd m bus) 2_000 200 e' 12 0 >>= or_timeout m) p
            ≡ wait_apsd_done m bus p)
        × ((read_vin m >>= λ v. rise_loop m e'' 101 (first_sample m v)) p ≡ wait_rise m p)
  unfolding wait_vin_window wait_apsd_done wait_rise ◌>>=◌ ask
  waits-end pred timeout_ms bus e e' e'' p short = (
    poll_until-Same m _ _ _ e _ 14 0 (omega arith) (omega arith) p,
    ap (next (or_timeout m)) (poll_until-Same m _ _ _ e' _ 11 0 (omega arith) (omega arith) p),
    rise_loop-Same e'' _ 100 (first_sample m (m.vin p.world).0) (omega arith) (omega arith)
        (record p { world = (m.vin p.world).1 }),
  )
