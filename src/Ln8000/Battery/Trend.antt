-- ===== src/Ln8000/Battery/Trend.antt =====
-- What a rising fuel counter means, over any history of samples.
use nabu_charger.Prelude.{ℕ, ◌-◌, ◌<◌, ◌≡◌, ◌↔◌, ◌⊎◌, true, List, [], ◌∷◌, u8_max, arith}
use nabu_charger.Ln8000.Battery.{SocTrend, new_trend, update_trend, soc_rise_hold_ms}

-- Raw samples with their times, the newest first.
abbrev pub SocHistory : Type 0
SocHistory = List (ℕ × ℕ)

abbrev pub trend_after : SocHistory → SocTrend
trend_after [] = new_trend
trend_after ((raw, now) ∷ h) = update_trend (trend_after h) raw now

abbrev pub last_raw : SocHistory → ℕ
last_raw [] = u8_max
last_raw ((raw, _) ∷ h) = raw

-- The counter rose to its present value at `at_ms`, and every sample since then read the same value
-- within the hold of that rise.
abbrev pub RoseAt : ℕ → SocHistory → Type 0
RoseAt at_ms [] = ⊥
RoseAt at_ms ((r, t) ∷ h) =
    ((t ≡ at_ms) × (last_raw h < r))
    ⊎ ((last_raw h ≡ r) × (t - at_ms < soc_rise_hold_ms) × RoseAt at_ms h)

prev_raw-last : (h : SocHistory) → (trend_after h).prev_raw ≡ last_raw h
unfolding update_trend
prev_raw-last [] = ground arith
prev_raw-last ((raw, now) ∷ h) = ground arith

-- One sample, with what came before it left abstract.
rising_step :
    (s : SocTrend) (raw now : ℕ) (R : ℕ → Type 0)
    → (s.rising ≡ true) ↔ R s.last_rise_ms
    → let s' = update_trend s raw now in
      (s'.rising ≡ true) ↔ (
        ((now ≡ s'.last_rise_ms) × (s.prev_raw < raw))
        ⊎ ((s.prev_raw ≡ raw) × (now - s'.last_rise_ms < soc_rise_hold_ms) × R s'.last_rise_ms))
unfolding update_trend
rising_step s raw now R ih = ground arith

-- After any samples the trend reads "rising" exactly when the counter rose to its present value at
-- the recorded time and has not moved since, each later sample coming within the hold.
pub rising-RoseAt :
    (h : SocHistory) → ((trend_after h).rising ≡ true) ↔ RoseAt (trend_after h).last_rise_ms h
rising-RoseAt [] = (λ e. cc, λ e. absurd e)
rising-RoseAt ((raw, now) ∷ h) =
    rw (prev_raw-last h) at
      (rising_step (trend_after h) raw now (λ t. RoseAt t h) (rising-RoseAt h))
