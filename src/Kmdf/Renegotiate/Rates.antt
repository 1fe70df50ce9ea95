-- ===== src/Kmdf/Renegotiate/Rates.antt =====
-- How often the driver negotiates again.
use nabu_charger.Prelude.{
  ℕ, ◌+◌, ◌-◌, ◌*◌, ◌≤◌, ◌<◌, ◌≡◌, ◌⊎◌, Bool, true, false, ◌&&◌, not, List, [], ◌∷◌, if◌then◌else◌,
  arith,
}
use nabu_charger.Ln8000.Hvdcp.{should_schedule_superuser_retry, superuser_retry_due}
use nabu_charger.Kmdf.Renegotiate.{
  DriverState, Tick, Wants, re_elevation, wants, schedule_or_clear_superuser_retry, acted, ticked,
}

-- The repeated elevations that a run of ticks decides on.
abbrev pub re_elevations : List Tick → DriverState → ℕ
re_elevations [] s = 0
re_elevations (t ∷ l) s = (if (wants t s).0.reelevate then 1 else 0) + re_elevations l (ticked t s)

-- The times do not go back, and stay clear of the end of a `u64`.
abbrev pub Ordered : ℕ → List Tick → Type 0
Ordered from [] = Unit
Ordered from (t ∷ l) =
    (from ≤ t.now_ms) × (t.now_ms ≤ 18_000_000_000_000_000_000) × Ordered t.now_ms l

abbrev pub last_ms : ℕ → List Tick → ℕ
last_ms from [] = from
last_ms from (t ∷ l) = last_ms t.now_ms l

-- After `n` repeats since `from`, the next one is not before one more minute.
abbrev Spaced : ℕ → ℕ → DriverState → Type 0
Spaced from n s =
    ((s.re_elevate_next_ms ≡ 0) ⊎ (from + (n + 1) * 60_000 ≤ s.re_elevate_next_ms))
    × ((s.re_elevate_backoff_ms ≡ 0) ⊎ (60_000 ≤ s.re_elevate_backoff_ms))

-- A negotiation was repeated because the privileged bus was busy.
abbrev pub is_retry : Wants → Bool
is_retry w = not w.replug && w.retry

abbrev pub retried : Wants → ℕ
retried w = if is_retry w then 1 else 0

abbrev pub retries : List Tick → DriverState → ℕ
retries [] s = 0
retries (t ∷ l) s = retried (wants t s).0 + retries l (ticked t s)

-- Every negotiation finds the buses unavailable.
abbrev pub Busy : List Tick → Type 0
Busy [] = Unit
Busy (t ∷ l) = (should_schedule_superuser_retry t.code ≡ true) × Busy l

re_elevation-retry :
    (owned : Bool) (now : ℕ) (s : DriverState)
    → (re_elevation owned now s).1.hvdcp_retry_attempts ≡ s.hvdcp_retry_attempts
unfolding re_elevation
re_elevation-retry true now s = ground arith
re_elevation-retry false now s = ground arith

acted-retry :
    (t : Tick) (w : Wants) (s : DriverState)
    → should_schedule_superuser_retry t.code ≡ true
    → s.hvdcp_retry_attempts ≤ 30
    → (acted t w s).hvdcp_retry_attempts ≡ retried w + s.hvdcp_retry_attempts
unfolding acted schedule_or_clear_superuser_retry
acted-retry t w s busy b = ground arith

wants-retry :
    (t : Tick) (s : DriverState)
    → ((wants t s).1.hvdcp_retry_attempts ≡ s.hvdcp_retry_attempts)
      × ((retried (wants t s).0 ≡ 0) ⊎ (s.hvdcp_retry_attempts < 30))
unfolding wants superuser_retry_due
wants-retry t s = (re_elevation-retry t.owned t.now_ms s, (ground arith))

-- While every negotiation finds the buses unavailable, a negotiation is repeated for it at most as often
-- as the 30 attempts leave, over any ticks, times and inputs.
pub retries-bounded :
    (l : List Tick) (s : DriverState)
    → Busy l
    → s.hvdcp_retry_attempts ≤ 30
    → retries l s ≤ 30 - s.hvdcp_retry_attempts
retries-bounded [] s busy b = omega arith
retries-bounded (t ∷ l) s (busy, more) b =
    let (same, left) = wants-retry t s in
    let after = acted-retry t (wants t s).0 (wants t s).1 busy (omega arith) in
    let few : retried (wants t s).0 ≤ 1 = ground arith in
    let room : (ticked t s).hvdcp_retry_attempts ≤ 30 = omega arith in
    let rest = retries-bounded l (ticked t s) more room in omega arith
