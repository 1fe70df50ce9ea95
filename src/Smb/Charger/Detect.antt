-- ===== src/Smb/Charger/Detect.antt =====
-- One step of the detection of the adapter (crates/core/src/driver.rs).
use Prim.Native.String.{String}
use nabu_charger.Prelude.{
  ℕ, ◌+◌, ◌-◌, Bool, Option, none, some, ◌==◌, leb, bit_and, min, u8_max, Result, ok, err,
}
use nabu_charger.Prelude.Methods.{pure, modify, gets, branch, ◌>>=◌, ◌>>◌}
use nabu_charger.Smb.Regs
use nabu_charger.Smb.Error.{
  ChargerError, detection_not_complete, detection_timeout, adapter_check_timeout,
}
use nabu_charger.Smb.Adapter.{AdapterType}
use nabu_charger.Smb.Apsd.{adapter_decode, adapter_label}
use nabu_charger.Smb.Journal.{info, warn, detection, retrying}
use nabu_charger.Smb.Platform.{ChargerTransport, Clock}
use nabu_charger.Smb.Charger.{
  Charger, State, Op, require_open, next_request, count_detection, now, log, transition, fail,
}
use nabu_charger.Smb.Charger.Registers.{read_reg, update_reg}
use nabu_charger.Smb.Charger.Session.{or_fail}

pub data Detection : Type 0 where
  pending : (elapsed_ms attempts : ℕ) → Detection
  ready : AdapterType → Detection

module _ {W : Type 0} (io : ChargerTransport W) (clock : Clock W) where
  abbrev pub count_rerun : Charger W → Charger W
  count_rerun p = record p { reruns = min (p.reruns + 1) u8_max }

  abbrev pub rerun_now : ℕ → String → Bool → Op W Unit
  rerun_now request reason spent = branch spent (pure tt) (do
    modify count_rerun
    reruns ← gets (λ p. p.reruns)
    log clock request warn (retrying "detect.rerun" reruns reason)
    or_fail clock request "detect.rerun"
        (update_reg io clock Regs.cmd_apsd Regs.apsd_rerun Regs.apsd_rerun request))

  abbrev pub reruns_spent : Charger W → Bool
  reruns_spent p = leb p.config.max_detect_reruns p.reruns

  unfoldable pub retry_detection : ℕ → String → Op W Unit
  retry_detection request reason = do spent ← gets reruns_spent; rerun_now request reason spent

  abbrev pub begin_detection : Option ℕ → ℕ → Op W ℕ
  begin_detection (some started) now_ms = pure started
  begin_detection none now_ms = do
    modify (λ p. record p { detect_started_ms = some now_ms })
    transition clock State.detecting
    pure now_ms

  abbrev pub still_pending : ℕ → Op W Detection
  still_pending elapsed_ms = gets (λ p. pending elapsed_ms p.attempts)

  -- What a step does while detection has not completed, by whether its time is up and its reruns spent.
  unfoldable pub overdue : ℕ → ℕ → Bool → Bool → Op W Unit
  overdue request elapsed_ms late spent =
      branch late
        (branch spent (fail clock request "detect.timeout" (detection_timeout elapsed_ms))
          (retry_detection request "timeout"))
        (pure tt)

  abbrev pub unstable : ℕ → ChargerError → Bool → Op W Unit
  unstable request e spent =
      branch spent (fail clock request "detect.unstable" e)
        (retry_detection request "adapter_check_timeout")

  -- The match on what the registers decode to.
  unfoldable pub judged : ℕ → ℕ → ℕ → ℕ → Result AdapterType ChargerError → Op W Detection
  judged request status result elapsed_ms (ok adapter) = do
    modify count_detection
    modify (λ p. record p { adapter = some adapter })
    transition clock State.ready
    log clock request info (detection (adapter_label adapter) status result elapsed_ms)
    pure (ready adapter)
  judged request status result elapsed_ms (err detection_not_complete) = do
    late ← gets (λ p. leb p.config.detect_timeout_ms elapsed_ms)
    spent ← gets reruns_spent
    overdue request elapsed_ms late spent
    still_pending elapsed_ms
  judged request status result elapsed_ms (err (adapter_check_timeout raw)) = do
    spent ← gets reruns_spent
    unstable request (adapter_check_timeout raw) spent
    still_pending elapsed_ms
  judged request status result elapsed_ms (err e) = fail clock request "detect.decode" e

  -- The result register is read only once detection is done.
  abbrev pub result_of : ℕ → String → ℕ → Op W ℕ
  result_of request op status =
      branch (bit_and status Regs.apsd_dtc_status_done == 0) (pure 0)
        (or_fail clock request op (read_reg io clock Regs.apsd_result_status request))

  unfoldable pub detect_step : Op W Detection
  detect_step = do
    require_open
    request ← next_request
    now_ms ← now clock
    begun ← gets (λ p. p.detect_started_ms)
    started ← begin_detection begun now_ms
    status ← or_fail clock request "detect.read_status" (read_reg io clock Regs.apsd_status request)
    result ← result_of request "detect.read_result" status
    modify (λ p. record p { attempts = min (p.attempts + 1) u8_max })
    config ← gets (λ p. p.config)
    judged request status result (now_ms - started) (adapter_decode status result config.qc35)
