-- ===== src/Smb/Journal.antt =====
-- The records of the journal (crates/core/src/journal.rs).
use Prim.Native.String.{String}
use nabu_charger.Prelude.{ℕ, Bool, true, false, Option}

pub data Level : Type 0 where
  trace debug info warn error : Level

pub data EventKind : Type 0 where
  opening : (transport : String) (done : Bool) → EventKind
  closing : (done : Bool) → EventKind
  reading : (addr value elapsed_us : ℕ) → EventKind
  writing : (addr value elapsed_us : ℕ) → EventKind
  detection : (adapter : String) (raw_status raw_result waited_ms : ℕ) → EventKind
  policy :
      (adapter : String) (icl_ua icl_raw : ℕ) (qc2_voltage : Option String) (pump_eligible : Bool)
      → EventKind
  retrying : (op : String) (attempt : ℕ) (reason : String) → EventKind
  resetting : (done : Bool) → EventKind
  state_change : (from to : String) → EventKind
  failure : (op code : String) → EventKind

pub record Event : Type 0 where
  pub seq : ℕ
  pub ts_ms : ℕ
  pub request_id : ℕ
  pub level : Level
  pub kind : EventKind

-- Records that say nothing of the state and are no reads or writes.
abbrev pub is_plain : EventKind → Bool
is_plain (state_change from to) = false
is_plain (reading addr value us) = false
is_plain (writing addr value us) = false
is_plain (opening name done) = true
is_plain (closing done) = true
is_plain (detection adapter status result ms) = true
is_plain (policy adapter ua raw voltage eligible) = true
is_plain (retrying op n reason) = true
is_plain (resetting done) = true
is_plain (failure op code) = true
