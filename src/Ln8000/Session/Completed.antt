-- ===== src/Ln8000/Session/Completed.antt =====
-- The last completed session after any history of samples.
use nabu_charger.Prelude.{
  ℕ, zero, suc, ◌+◌, ◌-◌, ◌%◌, ◌<◌, ◌≡◌, refl, ap, ◌∙◌, Bool, true, false, if◌then◌else◌, ◌==◌,
  Option, none, some, List, [], ◌∷◌, length, get_elem?, set, arith,
}
use nabu_charger.Ln8000.Session.{
  Telemetry, TelemetrySample, ChargeSession, new_telemetry, push, track, store, advance, slot,
  last_slot, store_session, last_completed,
}
use nabu_charger.Ln8000.Session.History.{pushed}
use nabu_charger.Ln8000.Session.Ring.{length-set}
use nabu_charger.Ln8000.Session.Tracking.{powered_run, summary, session_of, current-session_of}

abbrev closed : TelemetrySample → List TelemetrySample → Option ChargeSession → Option ChargeSession
closed s [] earlier = earlier
closed s (r ∷ l) earlier = some (record (summary r l) { ended_ms = some s.ts_ms })

-- The newest run of powered samples that a sample without power has ended.
abbrev pub finished : List TelemetrySample → Option ChargeSession
finished [] = none
finished (s ∷ h) = if s.input_present then finished h else closed s (powered_run h) (finished h)

-- The cursor of the session ring is inside it.
abbrev IsRing : Telemetry → Type 0
IsRing t = (length t.sessions ≡ 32) × (t.session_next < 32)

track-IsRing :
    (b : Bool) (o : Option ChargeSession) (t : Telemetry) (s : TelemetrySample)
    → IsRing t
    → IsRing (track b o t s)
unfolding track store_session store advance
track-IsRing true none t s h = h
track-IsRing true (some c) t s h = h
track-IsRing false (some c) t s (e, h) = (
  length-set t.sessions t.session_next (some (record c { ended_ms = some s.ts_ms })) ∙ e,
  omega arith,
)
track-IsRing false none t s h = h

pushed-IsRing : (h : List TelemetrySample) → IsRing (pushed h)
unfolding push new_telemetry
pushed-IsRing [] = (refl, omega arith)
pushed-IsRing (s ∷ h) = track-IsRing s.input_present (pushed h).current _ s (pushed-IsRing h)

get-set :
    {A : Type 0} (l : List A) (n : ℕ) (a : A) → n < length l → get_elem? (set l n a) n ≡ some a
get-set [] n a h = elim h [ ]
get-set (x ∷ l) zero a h = refl
get-set (x ∷ l) (suc n) a h = get-set l n a (omega arith)

before_advanced : (n : ℕ) → n < 32 → (if (n + 1) % 32 == 0 then 32 - 1 else (n + 1) % 32 - 1) ≡ n
before_advanced n h = ground arith

last_slot-store :
    (slots : List (Option ChargeSession)) (n : ℕ) (c : ChargeSession)
    → length slots ≡ 32
    → n < 32
    → last_slot 32 (store slots n c) (advance 32 n) ≡ some c
unfolding last_slot slot store advance
last_slot-store slots n c e h =
    rw (before_advanced n h, get-set slots n (some c) (omega arith)) refl

track-completed :
    (b : Bool) (o : Option ChargeSession) (l : List TelemetrySample) (t : Telemetry)
    (s : TelemetrySample)
    → IsRing t
    → o ≡ session_of l
    → last_completed (track b o t s)
      ≡ (if b then last_completed t else closed s l (last_completed t))
unfolding track store_session last_completed
track-completed true none l t s h e = refl
track-completed true (some c) l t s h e = refl
track-completed false o [] t s h e = rw e refl
track-completed false o (r ∷ l) t s (f, h) e = rw e (
    last_slot-store t.sessions t.session_next (record (summary r l) { ended_ms = some s.ts_ms }) f
      h)

-- After any pushes last_completed is the summary of the newest run of samples with power that a sample
-- without power has ended, with the time of that sample as its end; there is none exactly when no run has
-- ended.
pub last_completed-finished : (h : List TelemetrySample) → last_completed (pushed h) ≡ finished h
unfolding last_completed new_telemetry push
last_completed-finished [] = refl
last_completed-finished (s ∷ h) =
    track-completed s.input_present (pushed h).current (powered_run h) _ s (pushed-IsRing h)
      (current-session_of h)
    ∙ ap (λ o. if s.input_present then o else closed s (powered_run h) o)
        (last_completed-finished h)
