-- ===== src/Ln8000/Session.antt =====
-- Telemetry samples, charge sessions and their rings (crates/ln8000/src/session.rs).
pub mod Ring
pub mod History
pub mod Tracking
pub mod Completed
use nabu_charger.Prelude.{
  ℕ, zero, suc, ◌+◌, ◌-◌, ◌%◌, Bool, true, false, Option, none, some, List, [], ◌∷◌, ◌++◌, ltb,
  ◌==◌, if◌then◌else◌, sat_add, sat_add64, u64_max, get_elem?, set, replicate, ℤ, negsuc, ltb_ℤ,
  min,
}
use nabu_charger.Ln8000.Mode.{OpMode}

abbrev pub sample_ring : ℕ
sample_ring = 256

abbrev pub session_history : ℕ
session_history = 32

pub record TelemetrySample : Type 0 where
  pub ts_ms : ℕ
  pub vbat_uv : ℕ
  pub vbus_uv : ℕ
  pub iin_ua : ℕ
  pub die_temp_dc : ℤ
  pub op_mode : OpMode
  pub input_present : Bool
  pub vbat_valid : Bool
  pub die_temp_valid : Bool

pub record ChargeSession : Type 0 where
  pub started_ms : ℕ
  pub ended_ms : Option ℕ
  pub samples : ℕ
  pub peak_iin_ua : ℕ
  pub peak_die_temp_dc : ℤ
  pub saw_switching : Bool
  pub saw_bypass : Bool

-- `ChargeSession::new`; the peak starts at `i32::MIN`.
abbrev pub new_session : ℕ → ChargeSession
new_session started_ms = record {
  started_ms = started_ms;
  ended_ms = none;
  samples = 0;
  peak_iin_ua = 0;
  peak_die_temp_dc = negsuc 2147483647;
  saw_switching = false;
  saw_bypass = false;
}

abbrev until : Option ℕ → ℕ → ℕ
until (some end) now_ms = end
until none now_ms = now_ms

pub duration_ms : ChargeSession → ℕ → ℕ
duration_ms s now_ms = until s.ended_ms now_ms - s.started_ms

pub record Telemetry : Type 0 where
  pub samples : List (Option TelemetrySample)
  pub sample_next : ℕ
  pub sample_total : ℕ
  pub sessions : List (Option ChargeSession)
  pub session_next : ℕ
  pub session_total : ℕ
  pub current : Option ChargeSession

unfoldable pub new_telemetry : Telemetry
new_telemetry = record {
  samples = replicate sample_ring none;
  sample_next = 0;
  sample_total = 0;
  sessions = replicate session_history none;
  session_next = 0;
  session_total = 0;
  current = none;
}

module _ {A : Type 0} where
  -- The write through `get_mut`, and the cursor that follows it: `(next + 1) % size`.
  unfoldable pub store : List (Option A) → ℕ → A → List (Option A)
  store slots next a = set slots next (some a)

  -- `slots.get(position).and_then(Option::as_ref)`
  abbrev joined : Option (Option A) → Option A
  joined (some o) = o
  joined none = none

  unfoldable pub slot : List (Option A) → ℕ → Option A
  slot slots position = joined (get_elem? slots position)

  -- The slot before the cursor, as `last_sample` and `last_completed` read it.
  unfoldable pub last_slot : ℕ → List (Option A) → ℕ → Option A
  unfolding slot
  last_slot size slots next = slot slots (if next == 0 then size - 1 else next - 1)

  abbrev cons_some : Option A → List A → List A
  cons_some (some a) rest = a ∷ rest
  cons_some none rest = rest

  -- The loop of `for_each_sample`, from `index` on, with the rounds that are left.
  unfoldable pub for_each_from : ℕ → List (Option A) → ℕ → ℕ → ℕ → List A
  unfolding slot
  for_each_from size slots next index zero = []
  for_each_from size slots next index (suc rounds) =
      cons_some (slot slots ((next + index) % size))
        (for_each_from size slots next (index + 1) rounds)

unfoldable pub advance : ℕ → ℕ → ℕ
advance size next = (next + 1) % size

abbrev pub saw : OpMode → ChargeSession → ChargeSession
saw OpMode.switching s = record s { saw_switching = true }
saw OpMode.bypass s = record s { saw_bypass = true }
saw OpMode.standby s = s
saw OpMode.unknown s = s

-- What a sample with power adds to the open session.
unfoldable pub absorb : ChargeSession → TelemetrySample → ChargeSession
absorb s sample =
    let counted = record s {
      samples = sat_add s.samples 1;
      peak_iin_ua = if ltb s.peak_iin_ua sample.iin_ua then sample.iin_ua else s.peak_iin_ua;
      peak_die_temp_dc =
          if ltb_ℤ s.peak_die_temp_dc sample.die_temp_dc
          then sample.die_temp_dc
          else s.peak_die_temp_dc;
    } in
    saw sample.op_mode counted

unfoldable pub store_session : Telemetry → ChargeSession → Telemetry
unfolding store advance
store_session t session = record t {
  sessions = store t.sessions t.session_next session;
  session_next = advance session_history t.session_next;
}

-- The session half of `push`, by whether the sample has power and a session is open.
track : Bool → Option ChargeSession → Telemetry → TelemetrySample → Telemetry
unfolding store_session absorb
track true none t sample = record t {
  session_total = sat_add64 t.session_total 1;
  current = some (absorb (new_session sample.ts_ms) sample);
}
track true (some session) t sample = record t { current = some (absorb session sample) }
track false (some session) t sample =
    store_session (record t { current = none }) (record session { ended_ms = some sample.ts_ms })
track false none t sample = t

-- `Telemetry::push`
unfoldable pub push : Telemetry → TelemetrySample → Telemetry
unfolding track store advance
push t sample =
    let stored = record t {
      samples = store t.samples t.sample_next sample;
      sample_next = advance sample_ring t.sample_next;
      sample_total = sat_add64 t.sample_total 1;
    } in
    track sample.input_present stored.current stored sample

unfoldable pub last_sample : Telemetry → Option TelemetrySample
unfolding last_slot
last_sample t = last_slot sample_ring t.samples t.sample_next

unfoldable pub last_completed : Telemetry → Option ChargeSession
unfolding last_slot
last_completed t = last_slot session_history t.sessions t.session_next

-- `for_each_sample`, with the samples that its closure is called on, in order.
unfoldable pub for_each_sample : Telemetry → List TelemetrySample
unfolding for_each_from
for_each_sample t = for_each_from sample_ring t.samples t.sample_next 0 sample_ring
