-- ===== src/Ln8000/Session/History.antt =====
-- The telemetry after any history of samples: what its sample ring shows.
use mathlib.Core.List.{tail}
use nabu_charger.Prelude.{
  ◌+◌, ◌-◌, ◌<◌, ◌≡◌, refl, Bool, true, false, Option, none, some, List, [], ◌∷◌, ◌++◌, length, min,
  u64_max, arith,
}
use nabu_charger.Ln8000.Session.{
  Telemetry, TelemetrySample, ChargeSession, new_telemetry, push, track, store, advance,
  sample_ring, store_session, for_each_sample, last_sample,
}
use nabu_charger.Ln8000.Session.Ring.{
  rotated, slid, recent, compact-slid, rotated-store, length-set,
}
use nabu_charger.Ln8000.Session.Ring.Reads.{
  for_each-rotated, last_slot-newest, get-append_right, length-rotated,
}

-- The telemetry after a history, the newest sample first.
abbrev pub pushed : List TelemetrySample → Telemetry
pushed [] = new_telemetry
pushed (s ∷ h) = push (pushed h) s

-- The session half of a push leaves the sample ring alone.
track-ring :
    (b : Bool) (o : Option ChargeSession) (t : Telemetry) (s : TelemetrySample)
    → ((track b o t s).samples ≡ t.samples)
      × ((track b o t s).sample_next ≡ t.sample_next)
      × ((track b o t s).sample_total ≡ t.sample_total)
unfolding track store_session
track-ring true none t s = (refl, refl, refl)
track-ring true (some c) t s = (refl, refl, refl)
track-ring false (some c) t s = (refl, refl, refl)
track-ring false none t s = (refl, refl, refl)

push-samples :
    (t : Telemetry) (s : TelemetrySample) → (push t s).samples ≡ store t.samples t.sample_next s
unfolding push
push-samples t s = let (e, f, g) = track-ring s.input_present t.current _ s in e

push-next :
    (t : Telemetry) (s : TelemetrySample)
    → (push t s).sample_next ≡ advance sample_ring t.sample_next
unfolding push
push-next t s = let (e, f, g) = track-ring s.input_present t.current _ s in f

push-total :
    (t : Telemetry) (s : TelemetrySample)
    → (push t s).sample_total ≡ min (t.sample_total + 1) u64_max
unfolding push
push-total t s = let (e, f, g) = track-ring s.input_present t.current _ s in g

pushed-cursor : (h : List TelemetrySample) → (pushed h).sample_next < 256
unfolding advance new_telemetry
pushed-cursor [] = omega arith
pushed-cursor (s ∷ h) = rw (push-next (pushed h) s) (grind arith)

pushed-length : (h : List TelemetrySample) → length (pushed h).samples ≡ 256
unfolding store new_telemetry
pushed-length [] = refl
pushed-length (s ∷ h) =
    rw (push-samples (pushed h) s, length-set (pushed h).samples (pushed h).sample_next (some s))
      (pushed-length h)

pushed-rotated :
    (h : List TelemetrySample) → rotated (pushed h).sample_next (pushed h).samples ≡ slid 256 h
unfolding new_telemetry
pushed-rotated [] = refl
pushed-rotated (s ∷ h) =
    let e : rotated (advance (length (pushed h).samples) (pushed h).sample_next)
          (store (pushed h).samples (pushed h).sample_next s)
        ≡ tail (rotated (pushed h).sample_next (pushed h).samples) ++ some s ∷ [] =
      rotated-store (pushed h).samples (pushed h).sample_next s
        (omega (arith, pushed-length h, pushed-cursor h)) in
    rw (push-samples (pushed h) s, push-next (pushed h) s, ← pushed-rotated h, ← e, pushed-length h)

length-slid : (h : List TelemetrySample) → length (slid 256 h) ≡ 256
length-slid h =
    rw
      (
        ← pushed-rotated h,
        length-rotated (pushed h).sample_next (pushed h).samples
            (omega (arith, pushed-length h, pushed-cursor h)),
      )
      (pushed-length h)

length-tail : {A : Type 0} (l : List A) → length (tail l) ≡ length l - 1
length-tail [] = refl
length-tail (x ∷ l) = omega arith

-- After any history of pushes, `for_each_sample` visits exactly the 256 newest samples (all of
-- them when there are fewer), from the oldest of them to the newest.
pub for_each_sample-recent : (h : List TelemetrySample) → for_each_sample (pushed h) ≡ recent 256 h
unfolding for_each_sample
for_each_sample-recent h =
    rw
      (
        for_each-rotated 256 (pushed h).samples (pushed h).sample_next (pushed-length h)
            (pushed-cursor h),
        pushed-rotated h,
      )
      (compact-slid 256 h (omega arith))

-- After any history of pushes, `last_sample` is the newest sample.
last_sample-push :
    (s : TelemetrySample) (h : List TelemetrySample) → last_sample (pushed (s ∷ h)) ≡ some s
unfolding last_sample
last_sample-push s h =
    let short : length (tail (slid 256 h)) ≡ 255 =
      omega (arith, length-tail (slid 256 h), length-slid h) in
    rw (
      last_slot-newest 256 (pushed (s ∷ h)).samples (pushed (s ∷ h)).sample_next
          (pushed-length (s ∷ h)) (pushed-cursor (s ∷ h)),
      pushed-rotated (s ∷ h),
      get-append_right (tail (slid 256 h)) (some s ∷ []) 255 (omega (arith, short)),
      short,
    )
