-- ===== src/Kmdf/Battery/Told.antt =====
-- What Windows has been told of the battery (crates/ln8000-kmdf/src/battery.rs).
use nabu_charger.Prelude.{
  ℕ, ◌+◌, ◌≤◌, ◌≡◌, ◌⊎◌, inl, inr, refl, sym, ◌∙◌, Bool, true, false, ◌&&◌, ◌==◌, List, [], ◌∷◌,
  if◌then◌else◌, leb, arith,
}
use nabu_charger.Kmdf.Battery.{
  Battery, Telemetry, at_load, battery_unknown_capacity, gauge_percent, set_gauge_raw,
  note_gauge_failure, soc_percent, power_flags, build_status, estimated, seen_cell, held,
  notify_if_changed, update_from_telemetry,
}
use mathlib.Core.Path.{subst}

-- The driver and what it last told: the power state and the percentage.
pub record Watched : Type 0 where
  pub battery : Battery
  pub told_power : ℕ
  pub told_pct : ℕ

pub data Event : Type 0 where
  sampled : (raw now_ms : ℕ) → raw ≤ 255 → Event
  missed : Event
  ticked : Telemetry → Event

unfoldable pub told : Watched → Bool × Battery → Watched
told w (true, b) = record { battery = b; told_power = b.last_power_state; told_pct = b.last_pct }
told w (false, b) = record w { battery = b }

unfoldable pub happens : Watched → Event → Watched
happens w (sampled raw now_ms fits) = record w { battery = set_gauge_raw raw now_ms w.battery }
happens w missed = record w { battery = note_gauge_failure w.battery }
happens w (ticked t) = told w (update_from_telemetry t w.battery)

unfoldable pub history : Watched → List Event → Watched
history w [] = w
history w (e ∷ l) = history (happens w e) l

abbrev pub fresh : Watched
fresh = record { battery = at_load true; told_power = 0; told_pct = battery_unknown_capacity }

abbrev pub IsPercent : ℕ → Type 0
IsPercent p = (p ≤ 100) ⊎ (p ≡ battery_unknown_capacity)

-- What holds at any time of a battery whose class is attached.
record Sound (w : Watched) : Type 0 where
  attached : w.battery.class_attached ≡ true
  power : w.told_power ≡ w.battery.last_power_state
  notified : w.told_pct ≡ w.battery.notified_pct
  percent : IsPercent w.battery.last_pct

gauge_percent-IsPercent : (raw : ℕ) → raw ≤ 255 → gauge_percent raw ≤ 100
unfolding gauge_percent
gauge_percent-IsPercent raw fits = ground arith

soc_percent-IsPercent : (v : ℕ) → soc_percent v ≤ 100
unfolding soc_percent
soc_percent-IsPercent v = ground arith

-- Both branches of a test.
either_way : {A : Type 0} (P : A → Type 0) (b : Bool) (x y : A) → P x → P y → P (if b then x else y)
either_way P true x y p q = p
either_way P false x y p q = q

-- Between two telemetry ticks the estimate changes the percentage and its source only.
record Estimated (s e : Battery) : Type 0 where
  class_attached : e.class_attached ≡ s.class_attached
  notified_pct : e.notified_pct ≡ s.notified_pct
  percent : IsPercent s.last_pct → IsPercent e.last_pct

estimated-Estimated : (t : Telemetry) (s : Battery) → Estimated s (estimated t s)
unfolding estimated
estimated-Estimated t s =
    either_way (Estimated s) _ _ _
      (record {
        class_attached = refl;
        notified_pct = refl;
        percent = λ h. inl (soc_percent-IsPercent t.vbat_uv);
      })
      (record { class_attached = refl; notified_pct = refl; percent = λ h. h })

-- On the line, charging on the line, or discharging, and critical up to five percent.
abbrev pub IsPower : ℕ → ℕ → Type 0
IsPower pct p =
    let critical = if leb pct 5 then 8 else 0 in
    (p ≡ 1 + critical) ⊎ ((p ≡ 5 + critical) ⊎ (p ≡ 2 + critical))

power_flags-IsPower :
    (charged online : Bool) (pct : ℕ) → IsPower pct (power_flags online (charged && online) pct)
unfolding power_flags
power_flags-IsPower true true pct = inr (inl (ground arith))
power_flags-IsPower true false pct = inr (inr (ground arith))
power_flags-IsPower false true pct = inl (ground arith)
power_flags-IsPower false false pct = inr (inr (ground arith))

-- What was told last is what the driver holds.
pub record Told (w : Watched) : Type 0 where
  pub same_power : w.told_power ≡ w.battery.last_power_state
  pub same_percent : w.told_pct ≡ w.battery.last_pct
  pub percent : IsPercent w.told_pct
  pub power : IsPower w.told_pct w.told_power

record Both (w : Watched) : Type 0 where
  told : Told w
  sound : Sound w

-- After the flags are built, by whether they and the percentage are as before.
telling :
    (w : Watched) (prev : ℕ) (b : Battery) (same attached : Bool)
    → w.told_power ≡ prev
    → b.class_attached ≡ attached
    → attached ≡ true
    → ((b.last_power_state == prev) && (b.last_pct == b.notified_pct)) ≡ same
    → b.notified_pct ≡ w.told_pct
    → IsPercent b.last_pct
    → IsPower b.last_pct b.last_power_state
    → Both (
        told w (
          if same
          then (false, b)
          else if attached
          then (true, record b { notified_pct = b.last_pct })
          else (false, b)))
unfolding told
telling w prev b true attached before here on same n pc po =
    let p : w.told_power ≡ b.last_power_state = ground arith in
    let q : w.told_pct ≡ b.last_pct = ground arith in
    record {
      told = record {
        same_power = p;
        same_percent = q;
        percent = subst IsPercent (sym q) pc;
        power = subst (λ x. IsPower x w.told_power) (sym q) (subst (IsPower b.last_pct) (sym p) po);
      };
      sound = record { attached = here ∙ on; power = p; notified = sym n; percent = pc };
    }
telling w prev b false true before here on same n pc po = record {
  told = record { same_power = refl; same_percent = refl; percent = pc; power = po };
  sound = record { attached = here; power = refl; notified = refl; percent = pc };
}
telling w prev b false false before here on same n pc po = absurd (cc)

tick-Both : (t : Telemetry) (w : Watched) → Sound w → Both (happens w (ticked t))
unfolding happens update_from_telemetry notify_if_changed build_status held
tick-Both t w h =
    let e = estimated-Estimated t (seen_cell t w.battery) in
    telling w w.battery.last_power_state _ _ _ h.power refl (e.class_attached ∙ h.attached) refl
      (e.notified_pct ∙ sym h.notified) (e.percent h.percent) (power_flags-IsPower _ _ _)

event-Sound : (e : Event) (w : Watched) → Sound w → Sound (happens w e)
unfolding happens set_gauge_raw note_gauge_failure
event-Sound (sampled raw now_ms fits) w h = record {
  attached = h.attached;
  power = h.power;
  notified = h.notified;
  percent = inl (gauge_percent-IsPercent raw fits);
}
event-Sound missed w h = record {
  attached = h.attached;
  power = h.power;
  notified = h.notified;
  percent = h.percent;
}
event-Sound (ticked t) w h = (tick-Both t w h).sound

history-Sound : (l : List Event) (w : Watched) → Sound w → Sound (history w l)
unfolding history
history-Sound [] w h = h
history-Sound (e ∷ l) w h = history-Sound l (happens w e) (event-Sound e w h)

-- Whatever gauge samples, failed samples and telemetry ticks come before, with the class driver
-- attached from the start and reading the battery only when it is notified, a telemetry tick ends with Windows told of the power state and the
-- percentage that the driver holds: a percentage of at most 100 or the unknown one, and on the line,
-- charging on the line, or discharging, critical exactly up to five percent.
pub tick-Told : (l : List Event) (t : Telemetry) → Told (happens (history fresh l) (ticked t))
tick-Told l t =
    let start : Sound fresh = record {
      attached = refl;
      power = refl;
      notified = refl;
      percent = inr refl;
    } in
    (tick-Both t (history fresh l) (history-Sound l fresh start)).told
