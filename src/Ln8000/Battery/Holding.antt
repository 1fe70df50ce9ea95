-- ===== src/Ln8000/Battery/Holding.antt =====
-- The held flag over whole histories of ticks: what keeps it, what extends it and when it ends.
use nabu_charger.Prelude.{
  ℕ, suc, ◌-◌, ◌≤◌, ◌<◌, ◌≡◌, ◌≢◌, ◌↔◌, ◌⊎◌, refl, Bool, true, false, Option, none, some, List, [],
  ◌∷◌, min, u32_max, arith,
}
use nabu_charger.Ln8000.Battery.{
  Hold, update_evidence, update_hold, new_hold, front_armed, hold_arm_run,
}

-- Ticks with their evidence and time, the newest first.
abbrev pub History : Type 0
History = List (Option Bool × ℕ)

module _ (hold_ms : ℕ) (start : Hold) where
  abbrev pub held_after : History → Hold
  held_after [] = start
  held_after ((e, now) ∷ h) = update_evidence (held_after h) e now hold_ms

-- No tick of the history saw the predicate true.
abbrev pub NoTrue : History → Type 0
NoTrue [] = Unit
NoTrue ((e, _) ∷ h) = (e ≢ some true) × NoTrue h

-- Every tick that saw it false came within the hold of `since`.
abbrev pub AllWithin : ℕ → ℕ → History → Type 0
AllWithin hold_ms since [] = Unit
AllWithin hold_ms since ((e, now) ∷ h) =
    (e ≡ some false → now - since < hold_ms) × AllWithin hold_ms since h

-- Without a true tick the time of the hold does not move.
last_true-unmoved :
    (hold_ms : ℕ) (start : Hold) (h : History)
    → NoTrue h
    → (held_after hold_ms start h).last_true_ms ≡ start.last_true_ms
unfolding update_evidence update_hold
last_true-unmoved hold_ms start [] q = refl
last_true-unmoved hold_ms start ((none, now) ∷ h) q = last_true-unmoved hold_ms start h q.1
last_true-unmoved hold_ms start ((some true, now) ∷ h) q = absurd (q.0 refl)
last_true-unmoved hold_ms start ((some false, now) ∷ h) q =
    ground (arith, last_true-unmoved hold_ms start h q.1)

-- A flag that is up and sees no true tick any more stays up exactly as long as every tick that saw
-- the predicate false came within the hold; ticks without evidence neither end it nor extend it.
pub held-expires_iff :
    (hold_ms : ℕ) (start : Hold) (h : History)
    → start.held ≡ true
    → NoTrue h
    → ((held_after hold_ms start h).held ≡ true) ↔ AllWithin hold_ms start.last_true_ms h
unfolding update_evidence update_hold
held-expires_iff hold_ms start [] up q = ground arith
held-expires_iff hold_ms start ((none, now) ∷ h) up q =
    ground (arith, held-expires_iff hold_ms start h up q.1)
held-expires_iff hold_ms start ((some true, now) ∷ h) up q = absurd (q.0 refl)
held-expires_iff hold_ms start ((some false, now) ∷ h) up q =
    ground (arith, held-expires_iff hold_ms start h up q.1, last_true-unmoved hold_ms start h q.1)

-- How many true ticks in a row end the history; ticks without evidence are passed over.
abbrev pub run_length : History → ℕ
run_length [] = 0
run_length ((none, _) ∷ h) = run_length h
run_length ((some true, _) ∷ h) = suc (run_length h)
run_length ((some false, _) ∷ h) = 0

-- No two true ticks stand in a row.
abbrev pub NoPair : History → Type 0
NoPair [] = Unit
NoPair ((none, _) ∷ h) = NoPair h
NoPair ((some true, _) ∷ h) = (run_length h ≡ 0) × NoPair h
NoPair ((some false, _) ∷ h) = NoPair h

-- A true tick at `at_ms` that completed a run of `front`.
abbrev pub ArmedAt : ℕ → ℕ → History → Type 0
ArmedAt front at_ms [] = ⊥
ArmedAt front at_ms ((e, t) ∷ h) =
    ((e ≡ some true) × (t ≡ at_ms) × (front ≤ suc (run_length h))) ⊎ ArmedAt front at_ms h

module _ (hold_ms : ℕ) where
  true_run-run_length :
      (start : Hold) (h : History)
      → start.true_run ≡ 0
      → (held_after hold_ms start h).true_run ≡ min (run_length h) u32_max
  unfolding update_evidence update_hold
  true_run-run_length start [] z = ground arith
  true_run-run_length start ((none, now) ∷ h) z = true_run-run_length start h z
  true_run-run_length start ((some true, now) ∷ h) z = ground (arith, true_run-run_length start h z)
  true_run-run_length start ((some false, now) ∷ h) z = ground arith

  front_run-unmoved :
      (start : Hold) (h : History) → (held_after hold_ms start h).front_run ≡ start.front_run
  unfolding update_evidence update_hold
  front_run-unmoved start [] = refl
  front_run-unmoved start ((none, now) ∷ h) = front_run-unmoved start h
  front_run-unmoved start ((some true, now) ∷ h) = ground (arith, front_run-unmoved start h)
  front_run-unmoved start ((some false, now) ∷ h) = ground (arith, front_run-unmoved start h)

  lone_true-unmoved :
      (start : Hold) (h : History)
      → start.true_run ≡ 0
      → start.front_run ≡ hold_arm_run
      → NoPair h
      → (held_after hold_ms start h).last_true_ms ≡ start.last_true_ms
  unfolding update_evidence update_hold
  lone_true-unmoved start [] z f q = refl
  lone_true-unmoved start ((none, now) ∷ h) z f q = lone_true-unmoved start h z f q
  lone_true-unmoved start ((some true, now) ∷ h) z f q = ground (
    arith,
    true_run-run_length start h z,
    front_run-unmoved start h,
    lone_true-unmoved start h z f q.1,
  )
  lone_true-unmoved start ((some false, now) ∷ h) z f q =
      ground (arith, lone_true-unmoved start h z f q)

  -- A run-armed flag that is up cannot be kept up by lone true ticks: over any ticks with no two
  -- true ones in a row it is up exactly as long as every false tick came within the hold of the
  -- time it was last armed, and that time does not move.
  pub lone_true-expires_iff :
      (start : Hold) (h : History)
      → start.held ≡ true
      → start.true_run ≡ 0
      → start.front_run ≡ hold_arm_run
      → NoPair h
      → ((held_after hold_ms start h).held ≡ true) ↔ AllWithin hold_ms start.last_true_ms h
  unfolding update_evidence update_hold
  lone_true-expires_iff start [] up z f q = ground arith
  lone_true-expires_iff start ((none, now) ∷ h) up z f q =
      ground (arith, lone_true-expires_iff start h up z f q)
  lone_true-expires_iff start ((some true, now) ∷ h) up z f q = ground (
    arith,
    true_run-run_length start h z,
    front_run-unmoved start h,
    lone_true-expires_iff start h up z f q.1,
  )
  lone_true-expires_iff start ((some false, now) ∷ h) up z f q =
      ground (arith, lone_true-unmoved start h z f q, lone_true-expires_iff start h up z f q)

  -- A flag that is up was armed: at the recorded time there was a true tick that completed a run of
  -- the flag's arming length.
  armed :
      (start : Hold) (h : History)
      → start.held ≡ false
      → start.true_run ≡ 0
      → start.front_run ≤ hold_arm_run
      → (held_after hold_ms start h).held ≡ true
      → ArmedAt start.front_run (held_after hold_ms start h).last_true_ms h
  unfolding update_evidence update_hold
  armed start [] d z f up = cc
  armed start ((none, now) ∷ h) d z f up = ground (arith, armed start h d z f)
  armed start ((some true, now) ∷ h) d z f up =
      ground (arith, true_run-run_length start h z, front_run-unmoved start h, armed start h d z f)
  armed start ((some false, now) ∷ h) d z f up = ground (arith, armed start h d z f)

-- If a fresh run-armed flag is up after a tick that saw the predicate false, then less than the
-- hold earlier there was a true tick right after another.
pub held-evidence :
    (hold_ms : ℕ) (h : History) (now : ℕ)
    → (held_after hold_ms new_hold ((some false, now) ∷ h)).held ≡ true
    → let s = held_after hold_ms new_hold ((some false, now) ∷ h) in
      (now - s.last_true_ms < hold_ms) × ArmedAt 2 s.last_true_ms h
unfolding update_evidence update_hold
held-evidence hold_ms h now up = ground (arith, armed hold_ms new_hold h refl refl (omega arith))

-- A fresh front-armed flag is up after its first true tick, and that tick alone keeps it up exactly
-- over the false ticks within the hold.
front_armed-first :
    (hold_ms t : ℕ) (h : History)
    → NoTrue h
    → let s = update_hold front_armed true t hold_ms in
      (s.held ≡ true) × ((held_after hold_ms s h).held ≡ true ↔ AllWithin hold_ms t h)
unfolding update_hold
front_armed-first hold_ms t h q =
    (refl, held-expires_iff hold_ms (update_hold front_armed true t hold_ms) h refl q)
