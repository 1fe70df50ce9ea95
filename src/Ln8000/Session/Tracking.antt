-- ===== src/Ln8000/Session/Tracking.antt =====
-- The open session after any history of samples.
use nabu_charger.Prelude.{
  ℕ, suc, ◌+◌, ◌≡◌, refl, ap, ◌∙◌, Bool, true, false, ◌||◌, if◌then◌else◌, Option, none, some, List,
  [], ◌∷◌, length, min, max, u32_max, ℤ, negsuc, ltb_ℤ, ltb, arith,
}
use nabu_charger.Ln8000.Mode.{OpMode, switching, bypass, mode_eq}
use nabu_charger.Ln8000.Session.{
  Telemetry, TelemetrySample, ChargeSession, new_telemetry, new_session, push, track, store_session,
  absorb, saw,
}
use nabu_charger.Ln8000.Session.History.{pushed}

-- The samples since the input last had no power, of a history with the newest first.
abbrev pub powered_run : List TelemetrySample → List TelemetrySample
powered_run [] = []
powered_run (s ∷ h) = if s.input_present then s ∷ powered_run h else []

abbrev oldest_ms : TelemetrySample → List TelemetrySample → ℕ
oldest_ms s [] = s.ts_ms
oldest_ms s (r ∷ l) = oldest_ms r l

abbrev peak_iin : List TelemetrySample → ℕ
peak_iin [] = 0
peak_iin (s ∷ l) = max s.iin_ua (peak_iin l)

abbrev hottest : List TelemetrySample → ℤ
hottest [] = negsuc 2147483647
hottest (s ∷ l) = if ltb_ℤ (hottest l) s.die_temp_dc then s.die_temp_dc else hottest l

abbrev ran_in : OpMode → List TelemetrySample → Bool
ran_in m [] = false
ran_in m (s ∷ l) = mode_eq s.op_mode m || ran_in m l

-- A session over the samples `s ∷ l`, newest first, each field described by itself.
abbrev pub summary : TelemetrySample → List TelemetrySample → ChargeSession
summary s l = record {
  started_ms = oldest_ms s l;
  ended_ms = none;
  samples = min (length (s ∷ l)) u32_max;
  peak_iin_ua = peak_iin (s ∷ l);
  peak_die_temp_dc = hottest (s ∷ l);
  saw_switching = ran_in switching (s ∷ l);
  saw_bypass = ran_in bypass (s ∷ l);
}

abbrev pub session_of : List TelemetrySample → Option ChargeSession
session_of [] = none
session_of (s ∷ l) = some (summary s l)

-- What a push makes of the open session.
abbrev tracked : Bool → Option ChargeSession → TelemetrySample → Option ChargeSession
tracked true none s = some (absorb (new_session s.ts_ms) s)
tracked true (some c) s = some (absorb c s)
tracked false o s = none

track-current :
    (b : Bool) (o : Option ChargeSession) (t : Telemetry) (s : TelemetrySample)
    → t.current ≡ o
    → (track b o t s).current ≡ tracked b o s
unfolding track store_session
track-current true none t s e = refl
track-current true (some c) t s e = refl
track-current false (some c) t s e = refl
track-current false none t s e = e

push-current :
    (t : Telemetry) (s : TelemetrySample) → (push t s).current ≡ tracked s.input_present t.current s
unfolding push
push-current t s = track-current s.input_present t.current _ s refl

saw-marks :
    (m : OpMode) (c : ChargeSession)
    → saw m c ≡ record c {
      saw_switching = mode_eq m switching || c.saw_switching;
      saw_bypass = mode_eq m bypass || c.saw_bypass;
    }
saw-marks OpMode.unknown c = refl
saw-marks OpMode.standby c = refl
saw-marks OpMode.bypass c = refl
saw-marks OpMode.switching c = refl

peak_step : (a b : ℕ) → (if ltb a b then b else a) ≡ max b a
peak_step a b = ground arith

count_step : (n : ℕ) → min (min n u32_max + 1) u32_max ≡ min (suc n) u32_max
count_step n = ground arith

absorb-summary :
    (n s : TelemetrySample) (l : List TelemetrySample) → absorb (summary s l) n ≡ summary n (s ∷ l)
unfolding absorb
absorb-summary n s l =
    rw (saw-marks n.op_mode, peak_step (peak_iin (s ∷ l)) n.iin_ua, count_step (length (s ∷ l)))
      refl

absorb-first : (s : TelemetrySample) → absorb (new_session s.ts_ms) s ≡ summary s []
unfolding absorb
absorb-first s = rw (saw-marks s.op_mode, peak_step 0 s.iin_ua) refl

tracked-session :
    (b : Bool) (s : TelemetrySample) (l : List TelemetrySample)
    → tracked b (session_of l) s ≡ session_of (if b then s ∷ l else [])
tracked-session true s [] = ap some (absorb-first s)
tracked-session true s (r ∷ l) = ap some (absorb-summary s r l)
tracked-session false s l = refl

-- After any pushes the open session is the summary of the samples since the input last had no power:
-- when it started, how many samples it has, the largest current, the highest die temperature, and which
-- modes it saw; there is none exactly when the newest sample had no power, or there is no sample.
pub current-session_of :
    (h : List TelemetrySample) → (pushed h).current ≡ session_of (powered_run h)
unfolding new_telemetry
current-session_of [] = refl
current-session_of (s ∷ h) =
    push-current (pushed h) s
    ∙ ap (λ o. tracked s.input_present o s) (current-session_of h)
    ∙ tracked-session s.input_present s (powered_run h)
