-- ===== src/Kmdf/Renegotiate.antt =====
-- When the telemetry timer of the Windows driver negotiates with the adapter again
-- (crates/ln8000-kmdf/src/lib.rs): on a new input, on a busy privileged bus, and at 5 V without a
-- transfer. What a negotiation answers, and the state it leaves, are inputs;
-- the device is there.
pub mod Rates
use nabu_charger.Prelude.{
  ℕ, ◌*◌, Bool, true, false, ◌&&◌, ◌||◌, not, ◌==◌, List, [], ◌∷◌, leb, if◌then◌else◌, sat_add, min,
  sat_add64, u64_max, ℤ, pos, ◌+◌,
}
use nabu_charger.Ln8000.Hvdcp.{
  eq_ℤ, should_schedule_superuser_retry, superuser_retry_due, should_renegotiate_on_input_edge,
  input_present_from_vin, hvdcp_superuser_retry_max,
}
use nabu_charger.Kmdf.Hvdcp.{HvdcpState, phase_code}

abbrev pub re_elevate_first_ms : ℕ
re_elevate_first_ms = 60_000

abbrev pub re_elevate_backoff_max_ms : ℕ
re_elevate_backoff_max_ms = 300_000

abbrev pub hvdcp_superuser_retry_ms : ℕ
hvdcp_superuser_retry_ms = 2_000

-- The part of `DriverState` that decides on negotiations.
pub record DriverState : Type 0 where
  pub hvdcp : HvdcpState
  pub hvdcp_edge_armed : Bool
  pub last_input_present : Bool
  pub hvdcp_retry_pending : Bool
  pub hvdcp_retry_attempts : ℕ
  pub hvdcp_retry_next_ms : ℕ
  pub re_elevate_attempts : ℕ
  pub re_elevate_next_ms : ℕ
  pub re_elevate_backoff_ms : ℕ

-- What one tick sees: the input, whether it is at 5 V without a transfer, the time of the decision and a
-- later one; and of the negotiation, if there is one, the return code, the state left, and the input
-- after it.
pub record Tick : Type 0 where
  pub vbus : ℤ
  pub owned : Bool
  pub now_ms : ℕ
  pub later_ms : ℕ
  pub code : ℤ
  pub left : HvdcpState
  pub vin_after : ℤ

pub record Wants : Type 0 where
  pub replug : Bool
  pub retry : Bool
  pub reelevate : Bool

abbrev pub backed_off : ℕ → ℕ
backed_off backoff_ms =
    if backoff_ms == 0
    then re_elevate_first_ms
    else min (min (backoff_ms * 2) u64_max) re_elevate_backoff_max_ms

abbrev pub again_at : ℕ → DriverState → DriverState
again_at now_ms s = record s {
  re_elevate_attempts = sat_add s.re_elevate_attempts 1;
  re_elevate_backoff_ms = backed_off s.re_elevate_backoff_ms;
  re_elevate_next_ms = sat_add64 now_ms (backed_off s.re_elevate_backoff_ms);
}

abbrev pub episode_over : DriverState → DriverState
episode_over s = record s {
  re_elevate_next_ms = 0;
  re_elevate_attempts = 0;
  re_elevate_backoff_ms = 0;
}

-- Whether the elevation is tried again, and what is remembered of it.
unfoldable pub re_elevation : Bool → ℕ → DriverState → Bool × DriverState
re_elevation true now_ms s =
    if s.re_elevate_next_ms == 0
    then (false, record s { re_elevate_next_ms = sat_add64 now_ms re_elevate_first_ms })
    else if leb s.re_elevate_next_ms now_ms
    then (true, again_at now_ms s)
    else (false, s)
re_elevation false now_ms s =
    if not (s.re_elevate_next_ms == 0) || not (s.re_elevate_attempts == 0)
    then (false, episode_over s)
    else (false, s)

unfoldable pub wants : Tick → DriverState → Wants × DriverState
wants t s =
    let input_now = input_present_from_vin t.vbus in
    let (again, s') = re_elevation t.owned t.now_ms s in
    (
      record {
        replug =
            s.hvdcp_edge_armed
            && should_renegotiate_on_input_edge (phase_code s.hvdcp.phase) s.last_input_present
                input_now;
        retry =
            superuser_retry_due s.hvdcp_retry_pending s.hvdcp_retry_attempts t.now_ms
              s.hvdcp_retry_next_ms;
        reelevate = again;
      },
      record s' { last_input_present = input_now },
    )

unfoldable pub schedule_or_clear_superuser_retry : ℕ → ℤ → DriverState → DriverState
schedule_or_clear_superuser_retry now_ms negotiate_rc s =
    if should_schedule_superuser_retry negotiate_rc
    then (if leb hvdcp_superuser_retry_max s.hvdcp_retry_attempts
        then record s { hvdcp_retry_pending = false }
        else record s {
          hvdcp_retry_pending = true;
          hvdcp_retry_next_ms =
              if s.hvdcp_retry_next_ms == 0
              then sat_add64 now_ms hvdcp_superuser_retry_ms
              else s.hvdcp_retry_next_ms;
        })
    else record s { hvdcp_retry_pending = false; hvdcp_retry_attempts = 0; hvdcp_retry_next_ms = 0 }

abbrev pub arm_hvdcp_input_edge : ℤ → DriverState → DriverState
arm_hvdcp_input_edge vin s = record s {
  last_input_present = input_present_from_vin vin;
  hvdcp_edge_armed = true;
}

-- The negotiation and what it schedules.
abbrev pub negotiated : Tick → DriverState → DriverState
negotiated t s = schedule_or_clear_superuser_retry t.later_ms t.code (record s { hvdcp = t.left })

abbrev pub unlatched : DriverState → DriverState
unlatched s = record s { hvdcp = record (s.hvdcp) { force9v_latched = false } }

abbrev pub counted_retry : Tick → DriverState → DriverState
counted_retry t s = record s {
  hvdcp_retry_attempts = sat_add s.hvdcp_retry_attempts 1;
  hvdcp_retry_next_ms = sat_add64 t.later_ms hvdcp_superuser_retry_ms;
}

-- What the tick does once the pump is free.
unfoldable pub acted : Tick → Wants → DriverState → DriverState
acted t w s =
    if w.replug
    then arm_hvdcp_input_edge t.vin_after (negotiated t (unlatched s))
    else if w.retry
    then (let done = negotiated t (counted_retry t s) in
        if eq_ℤ t.code (pos 0) then arm_hvdcp_input_edge t.vin_after done else done)
    else if w.reelevate
    then arm_hvdcp_input_edge t.vin_after (negotiated t s)
    else s

abbrev pub ticked : Tick → DriverState → DriverState
ticked t s = acted t (wants t s).0 (wants t s).1
