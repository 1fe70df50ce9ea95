-- ===== src/Tests/Charger.antt =====
-- The charger's session on a chip of plain memory, with the registers of a Quick Charge 3.0 adapter and
-- a clock that stands still.
use nabu_charger.Prelude.{
  ◌+◌, ◌-◌, ◌≤◌, ◌<◌, ◌≡◌, refl, ◌⊎◌, true, some, List, [], ◌∷◌, ◌==◌, if◌then◌else◌, ok, min, max,
  u64_max, arith,
}
use nabu_charger.Prelude.Methods.{◌>>=◌, branch, rescue}
use nabu_charger.Prelude.Methods.Ends.{Done}
use nabu_charger.Ln8000.Bus.{merge}
use nabu_charger.Ln8000.Bus.Memory.{Image, put}
use nabu_charger.Smb.Adapter.{AdapterType}
use nabu_charger.Smb.Apsd.{adapter_decode}
use nabu_charger.Smb.Icl.{icl_encode, icl_decode, quantize_down, default_grid}
use nabu_charger.Smb.Icl.Grid.{steps_of, quantize_down-encodes}
use nabu_charger.Smb.Platform.{ChargerTransport, Clock}
use nabu_charger.Smb.Charger.{
  Charger, State, default_config, fresh, state_eq, next_request, now, log,
}
use nabu_charger.Smb.Charger.Registers.{
  elapsed_us, retry, note_read, read_done, read_loop, read_reg, verify, note_write, write_done,
  write_loop, write_reg, update_reg,
}
use nabu_charger.Smb.Charger.Detect.{pending, detect_step, judged, overdue, retry_detection}
use nabu_charger.Smb.Charger.Logged.{Replays, Numbered, total, reads_of, writes_of}
use nabu_charger.Smb.Charger.Logged.Runs.{
  Call, detects, applies, closes, monitors, session, session-IsLogged,
}
use nabu_charger.Smb.Charger.View.{view}
use nabu_charger.Smb.Charger.View.Detects.{Decided, Faults}
use nabu_charger.Smb.Charger.View.Outcomes.{
  over, again, late_answers, detect_step-Decided, Waits-bounded,
}
use nabu_charger.Smb.Charger.Closed.{Untouched, close-Untouched}

abbrev chip : ChargerTransport Image
chip = record {
  read = λ addr image. (ok (image addr), image);
  write = λ addr value image. (ok tt, put addr value image);
  reset = λ image. (ok tt, image);
  name = λ image. "memory";
}

abbrev still : Clock Image
still = record { now_ms = λ image. (5_000, image) }

abbrev qc3 : Image
qc3 k = if k == 0x1307 then 0x03 else if k == 0x1308 then 0x48 else 0

abbrev unplugged : Image
unplugged k = 0

-- An open session on this chip.
abbrev idle_at : Image → Charger Image
idle_at image = record (fresh default_config image) { state = State.idle }

abbrev calls : List (Call Image)
calls = closes ∷ applies AdapterType.hvdcp3 ∷ detects ∷ []

session-IsLogged_example :
    Replays
      (session chip still default_config qc3 calls).journal
      (session chip still default_config qc3 calls).state
    × Numbered (session chip still default_config qc3 calls).journal
    × ((session chip still default_config qc3 calls).stats.reads
        ≡ min (total reads_of (session chip still default_config qc3 calls).journal) u64_max)
    × ((session chip still default_config qc3 calls).stats.writes
        ≡ min (total writes_of (session chip still default_config qc3 calls).journal) u64_max)
session-IsLogged_example = session-IsLogged chip still default_config qc3 calls

detect_step-Decided_example :
    Done
      (λ d q. Decided (view (idle_at qc3)) d (view q))
      (λ e q. Faults (view (idle_at qc3)) (view q))
      (detect_step chip still (idle_at qc3))
detect_step-Decided_example = detect_step-Decided chip still (idle_at qc3) refl (omega arith)

-- Detection began five seconds ago and nothing is attached.
abbrev late : Charger Image
late = record (idle_at unplugged) { detect_started_ms = some 0; state = State.detecting }

late_answer : detect_step chip still late ≡ (ok (pending 5_000 1), (detect_step chip still late).1)
unfolding detect_step judged overdue retry_detection adapter_decode update_reg read_reg read_loop
    retry read_done note_read elapsed_us write_reg write_loop write_done note_write verify now log
    next_request ◌>>=◌ branch rescue merge
late_answer = refl

Waits-bounded_example : late_answers 3_000 (5_000 ∷ []) ≤ 2 - 0
Waits-bounded_example =
    Waits-bounded chip still {p = late} refl (omega arith)
      (again (λ w. w) 1 (detect_step chip still late).1 late_answer over)

close-Untouched_example :
    (state_eq
        (session chip still default_config qc3 (monitors ∷ closes ∷ detects ∷ [])).state
        State.closed
      ≡ true)
    × Untouched
        (session chip still default_config qc3 (closes ∷ detects ∷ []))
        (session chip still default_config qc3 (monitors ∷ closes ∷ detects ∷ []))
close-Untouched_example =
    close-Untouched chip still default_config qc3 (detects ∷ []) (monitors ∷ [])

quantize_down-encodes_example :
    (icl_encode default_grid (quantize_down default_grid 3_050_000)
      ≡ ok (steps_of default_grid 3_050_000))
    × (icl_decode default_grid (steps_of default_grid 3_050_000)
        ≡ quantize_down default_grid 3_050_000)
    × (quantize_down default_grid 3_050_000 ≤ max 3_050_000 100_000)
    × ((3_050_000 < quantize_down default_grid 3_050_000 + 100_000)
        ⊎ (quantize_down default_grid 3_050_000 ≡ icl_decode default_grid 31))
quantize_down-encodes_example =
    quantize_down-encodes default_grid (omega arith, omega arith) 3_050_000
