-- ===== src/Smb/Charger.antt =====
-- The session of the charger core (`Charger`, crates/core/src/driver.rs): its state, its settings and
-- its journal, which is kept newest first.
pub mod Registers
pub mod Session
pub mod Detect
pub mod Apply
pub mod Transparent
pub mod Logged
pub mod View
pub mod Closed
use Prim.Native.String.{String}
use nabu_charger.Prelude.{
  ℕ, ◌+◌, Bool, true, false, Option, none, some, List, [], ◌∷◌, ◌==◌, if◌then◌else◌, sat_add64,
  Result, ok, err,
}
use nabu_charger.Prelude.Methods.{Method, pure, throw, modify, gets, rescue, ◌>>=◌, ◌>>◌}
use nabu_charger.Smb.Error.{ChargerError, error_code, not_open}
use nabu_charger.Smb.Adapter.{AdapterType, Qc35Support, supported}
use nabu_charger.Smb.Icl.{IclEncoding, default_grid}
use nabu_charger.Smb.Policy.{min_icl_ua, max_icl_ua}
use nabu_charger.Smb.Journal.{Level, debug, error, EventKind, state_change, failure, Event}
use nabu_charger.Smb.Platform.{Clock}

pub data State : Type 0 where
  closed idle detecting ready faulted : State

abbrev pub state_label : State → String
state_label State.closed = "closed"
state_label State.idle = "idle"
state_label State.detecting = "detecting"
state_label State.ready = "ready"
state_label State.faulted = "faulted"

abbrev state_rank : State → ℕ
state_rank State.closed = 0
state_rank State.idle = 1
state_rank State.detecting = 2
state_rank State.ready = 3
state_rank State.faulted = 4

-- `==` on states, as the derived `PartialEq` decides it.
abbrev pub state_eq : State → State → Bool
state_eq a b = state_rank a == state_rank b

pub record ChargerConfig : Type 0 where
  pub detect_timeout_ms : ℕ
  pub max_detect_reruns : ℕ
  pub max_transport_retries : ℕ
  pub safe_icl_ua : ℕ
  pub max_icl_ua : ℕ
  pub verify_writes : Bool
  pub qc35 : Qc35Support
  pub icl : IclEncoding

abbrev pub default_config : ChargerConfig
default_config = record {
  detect_timeout_ms = 3_000;
  max_detect_reruns = 2;
  max_transport_retries = 3;
  safe_icl_ua = min_icl_ua;
  max_icl_ua = max_icl_ua;
  verify_writes = true;
  qc35 = supported false;
  icl = default_grid;
}

abbrev pub for_nabu : ChargerConfig
for_nabu = record default_config { qc35 = supported false }

pub record Stats : Type 0 where
  pub reads : ℕ
  pub writes : ℕ
  pub retries : ℕ
  pub resets : ℕ
  pub errors : ℕ
  pub detections : ℕ

pub record Charger (W : Type 0) : Type 0 where
  pub world : W
  pub journal : List Event
  pub config : ChargerConfig
  pub state : State
  pub adapter : Option AdapterType
  pub detect_started_ms : Option ℕ
  pub reruns : ℕ
  pub attempts : ℕ
  pub seq : ℕ
  pub request_id : ℕ
  pub stats : Stats

abbrev pub Op : Type 0 → Type 0 → Type 0
Op W A = Method (Charger W) ChargerError A

-- A charger as `open` starts it.
abbrev pub fresh : {W : Type 0} → ChargerConfig → W → Charger W
fresh config world = record {
  world = world;
  journal = [];
  config = config;
  state = State.closed;
  adapter = none;
  detect_started_ms = none;
  reruns = 0;
  attempts = 0;
  seq = 0;
  request_id = 0;
  stats = record { reads = 0; writes = 0; retries = 0; resets = 0; errors = 0; detections = 0 };
}

-- The early `return Err(ChargerError::NotOpen)`.
abbrev pub require_open : {W : Type 0} → Op W Unit
require_open p = if state_eq p.state State.closed then (err not_open, p) else (ok tt, p)

unfoldable pub next_request : {W : Type 0} → Op W ℕ
next_request p = let id = sat_add64 p.request_id 1 in (ok id, record p { request_id = id })

module _ {W : Type 0} where
  abbrev pub count_read : Charger W → Charger W
  count_read p = record p { stats = record (p.stats) { reads = sat_add64 p.stats.reads 1 } }

  abbrev pub count_written : Charger W → Charger W
  count_written p = record p { stats = record (p.stats) { writes = sat_add64 p.stats.writes 1 } }

  abbrev pub count_retry : Charger W → Charger W
  count_retry p = record p { stats = record (p.stats) { retries = sat_add64 p.stats.retries 1 } }

  abbrev pub count_reset : Charger W → Charger W
  count_reset p = record p { stats = record (p.stats) { resets = sat_add64 p.stats.resets 1 } }

  abbrev pub count_error : Charger W → Charger W
  count_error p = record p { stats = record (p.stats) { errors = sat_add64 p.stats.errors 1 } }

  abbrev pub count_detection : Charger W → Charger W
  count_detection p = record p {
    stats = record (p.stats) { detections = sat_add64 p.stats.detections 1 };
  }

module _ {W : Type 0} (clock : Clock W) where
  -- `self.clock.now_ms()`
  unfoldable pub now : Op W ℕ
  now p = let (ms, w) = clock.now_ms p.world in (ok ms, record p { world = w })

  unfoldable pub log : ℕ → Level → EventKind → Op W Unit
  log request_id level kind p =
      let (ts, w) = clock.now_ms p.world in
      let seq' = sat_add64 p.seq 1 in
      let event : Event = record {
        seq = seq';
        ts_ms = ts;
        request_id = request_id;
        level = level;
        kind = kind;
      } in
      (ok tt, record p { world = w; seq = seq'; journal = event ∷ p.journal })

  unfoldable pub transition : State → Op W Unit
  transition to p =
      if state_eq p.state to
      then (ok tt, p)
      else log p.request_id debug (state_change (state_label p.state) (state_label to))
          (record p { state = to })

  -- `return Err(self.fail(request, op, err))`
  unfoldable pub fail : {A : Type 0} → ℕ → String → ChargerError → Op W A
  fail request op e = do
    modify count_error
    transition State.faulted
    log request error (failure op (error_code e))
    throw e
