-- ===== src/Smb/Charger/Logged/Sessions.antt =====
-- The session's methods keep the journal true.
use Prim.Native.String.{String}
use nabu_charger.Prelude.{ℕ, ◌+◌, refl, Bool, Option, some, none, Result, ok, err, min, u8_max}
use nabu_charger.Prelude.Methods.Keeps.{Keeps}
use nabu_charger.Smb.Error.{ChargerError, detection_not_complete, adapter_check_timeout}
use nabu_charger.Smb.Adapter.{AdapterType}
use nabu_charger.Smb.Policy.{Qc2Voltage, ChargePolicy}
use nabu_charger.Smb.Platform.{ChargerTransport, Clock}
use nabu_charger.Smb.Charger.{Charger, count_detection}
use nabu_charger.Smb.Charger.Session.{
  probe, open_failed, open_session, forget_detection, reinit, restore_safe, close,
}
use nabu_charger.Smb.Charger.Detect.{
  count_rerun, retry_detection, begin_detection, overdue, judged, detect_step,
}
use nabu_charger.Smb.Charger.Apply.{write_qc2, write_policy, apply, monitored, monitor}
use nabu_charger.Prelude.Methods.{modify}
use nabu_charger.Smb.Charger.Logged.{IsLogged}
use nabu_charger.Smb.Charger.Logged.Methods.{silent-Keeps, logged_steps}

module _ {W : Type 0} where
  count_detection-Keeps : Keeps {S = Charger W} {E = ChargerError} IsLogged (modify count_detection)
  count_detection-Keeps = silent-Keeps count_detection (λ p. (refl, refl, refl, refl, refl))

  adapter-Keeps :
      (a : Option AdapterType)
      → Keeps {S = Charger W} {E = ChargerError} IsLogged (modify (λ p. record p { adapter = a }))
  adapter-Keeps a =
      silent-Keeps (λ p. record p { adapter = a }) (λ p. (refl, refl, refl, refl, refl))

module _ {W : Type 0} (io : ChargerTransport W) (clock : Clock W) where
  probe-Keeps : Keeps IsLogged (probe io clock)
  unfolding probe
  probe-Keeps = search (logged_steps) depth 24

  open_failed-Keeps :
      (request : ℕ) (name : String) (e : ChargerError)
      → Keeps IsLogged (open_failed io clock request name e)
  open_failed-Keeps request name e = search (logged_steps) depth 24

  pub open_session-Keeps : Keeps IsLogged (open_session io clock)
  unfolding open_session
  open_session-Keeps = search (logged_steps, probe-Keeps, open_failed-Keeps) depth 24

  forget-Keeps :
      Keeps {S = Charger W} {E = ChargerError} IsLogged (modify (forget_detection io clock))
  forget-Keeps = silent-Keeps (forget_detection io clock) (λ p. (refl, refl, refl, refl, refl))

  pub reinit-Keeps : Keeps IsLogged (reinit io clock)
  unfolding reinit
  reinit-Keeps = search (logged_steps, probe-Keeps, forget-Keeps) depth 24

  restore_safe-Keeps :
      (request : ℕ) (r : Result ℕ ChargerError) → Keeps IsLogged (restore_safe io clock request r)
  restore_safe-Keeps request (ok raw) = search (logged_steps) depth 24
  restore_safe-Keeps request (err e) = search (logged_steps) depth 24

  pub close-Keeps : Keeps IsLogged (close io clock)
  unfolding close
  close-Keeps = search (logged_steps, restore_safe-Keeps) depth 24

  count_rerun-Keeps :
      Keeps {S = Charger W} {E = ChargerError} IsLogged (modify (count_rerun io clock))
  count_rerun-Keeps = silent-Keeps (count_rerun io clock) (λ p. (refl, refl, refl, refl, refl))

  retry_detection-Keeps :
      (request : ℕ) (reason : String) → Keeps IsLogged (retry_detection io clock request reason)
  unfolding retry_detection
  retry_detection-Keeps request reason = search (logged_steps, count_rerun-Keeps) depth 24

  started-Keeps :
      (ms : ℕ)
      → Keeps {S = Charger W} {E = ChargerError} IsLogged
          (modify (λ p. record p { detect_started_ms = some ms }))
  started-Keeps ms =
      silent-Keeps (λ p. record p { detect_started_ms = some ms })
        (λ p. (refl, refl, refl, refl, refl))

  begin-Keeps : (o : Option ℕ) (ms : ℕ) → Keeps IsLogged (begin_detection io clock o ms)
  begin-Keeps (some s) ms = search (logged_steps) depth 24
  begin-Keeps none ms = search (logged_steps, started-Keeps) depth 24

  overdue-Keeps :
      (request ms : ℕ) (late spent : Bool) → Keeps IsLogged (overdue io clock request ms late spent)
  unfolding overdue
  overdue-Keeps request ms late spent = search (logged_steps, retry_detection-Keeps) depth 24

  judged-Keeps :
      (request status result ms : ℕ) (r : Result AdapterType ChargerError)
      → Keeps IsLogged (judged io clock request status result ms r)
  unfolding judged
  judged-Keeps request status result ms (ok a) =
      search (logged_steps, count_detection-Keeps, adapter-Keeps (some a)) depth 24
  judged-Keeps request status result ms (err detection_not_complete) =
      search (logged_steps, overdue-Keeps) depth 24
  judged-Keeps request status result ms (err (adapter_check_timeout raw)) =
      search (logged_steps, retry_detection-Keeps) depth 24
  judged-Keeps request status result ms (err e) = search (logged_steps) depth 24

  attempts-Keeps :
      Keeps {S = Charger W} {E = ChargerError} IsLogged
        (modify (λ p. record p { attempts = min (p.attempts + 1) u8_max }))
  attempts-Keeps =
      silent-Keeps (λ p. record p { attempts = min (p.attempts + 1) u8_max })
        (λ p. (refl, refl, refl, refl, refl))

  pub detect_step-Keeps : Keeps IsLogged (detect_step io clock)
  unfolding detect_step
  detect_step-Keeps = search (logged_steps, begin-Keeps, judged-Keeps, attempts-Keeps) depth 30

  write_qc2-Keeps :
      (request : ℕ) (v : Option Qc2Voltage) → Keeps IsLogged (write_qc2 io clock request v)
  write_qc2-Keeps request none = search (logged_steps) depth 24
  write_qc2-Keeps request (some v) = search (logged_steps) depth 24

  write_policy-Keeps :
      (request raw : ℕ) (chosen : ChargePolicy)
      → Keeps IsLogged (write_policy io clock request raw chosen)
  unfolding write_policy
  write_policy-Keeps request raw chosen = search (logged_steps, write_qc2-Keeps) depth 24

  pub apply-Keeps : (a : AdapterType) → Keeps IsLogged (apply io clock a)
  unfolding apply
  apply-Keeps a = search (logged_steps, write_policy-Keeps, adapter-Keeps (some a)) depth 30

  monitored-Keeps :
      (request status result : ℕ) (r : Result AdapterType ChargerError)
      → Keeps IsLogged (monitored io clock request status result r)
  unfolding monitored
  monitored-Keeps request status result (ok a) =
      search (logged_steps, adapter-Keeps (some a)) depth 24
  monitored-Keeps request status result (err detection_not_complete) =
      search (logged_steps, adapter-Keeps none) depth 24
  monitored-Keeps request status result (err e) = search (logged_steps) depth 24

  pub monitor-Keeps : Keeps IsLogged (monitor io clock)
  unfolding monitor
  monitor-Keeps = search (logged_steps, monitored-Keeps, adapter-Keeps none) depth 30
