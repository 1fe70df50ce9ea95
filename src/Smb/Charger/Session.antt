-- ===== src/Smb/Charger/Session.antt =====
-- Opening, recovering and closing the session (crates/core/src/driver.rs).
use Prim.Native.String.{String}
use nabu_charger.Prelude.{ℕ, Bool, true, false, none, ◌==◌, if◌then◌else◌, Result, ok, err}
use nabu_charger.Prelude.Methods.{pure, throw, modify, gets, branch, rescue, attempt, ◌>>=◌, ◌>>◌}
use nabu_charger.Smb.Regs
use nabu_charger.Smb.Error.{ChargerError, transport, device_fault, disconnected_error, error_code}
use nabu_charger.Smb.Icl.{quantize_down, icl_encode}
use nabu_charger.Smb.Journal.{debug, info, warn, error, opening, closing, resetting, failure}
use nabu_charger.Smb.Platform.{ChargerTransport, Clock}
use nabu_charger.Smb.Charger.{
  Charger, ChargerConfig, State, state_eq, Op, fresh, require_open, next_request, count_error,
  count_reset, log, transition, fail,
}
use nabu_charger.Smb.Charger.Registers.{is_ok, reset_link, read_reg, write_reg}

module _ {W : Type 0} (clock : Clock W) where
  -- `match m { Ok(value) => value, Err(err) => return Err(self.fail(request, op, err)) }`
  abbrev pub or_fail : {A : Type 0} → ℕ → String → Op W A → Op W A
  or_fail request op m = rescue m (fail clock request op)

module _ {W : Type 0} (io : ChargerTransport W) (clock : Clock W) where
  unfoldable pub probe : Op W Unit
  probe = do
    request ← next_request
    status ← read_reg io clock Regs.apsd_status request
    branch (status == 0xff) (throw (device_fault 0xff)) (pure tt)

  abbrev pub open_failed : ℕ → String → ChargerError → Op W Unit
  open_failed request name e = do
    modify count_error
    log clock request error (failure "open" (error_code e))
    log clock request info (opening name false)
    throw e

  -- `Charger::open` on a charger as it starts.
  unfoldable pub open_session : Op W Unit
  open_session = do
    request ← next_request
    name ← gets (λ p. io.name p.world)
    reset_ok ← reset_link io clock
    log clock request (if reset_ok then debug else warn) (resetting reset_ok)
    rescue probe (open_failed request name)
    transition clock State.idle
    log clock request info (opening name true)

  abbrev pub open_charger : ChargerConfig → W → Result Unit ChargerError × Charger W
  open_charger config world = open_session (fresh config world)

  abbrev pub forget_detection : Charger W → Charger W
  forget_detection p = record p {
    detect_started_ms = none;
    reruns = 0;
    attempts = 0;
    adapter = none;
  }

  unfoldable pub reinit : Op W Unit
  reinit = do
    require_open
    request ← next_request
    done ← reset_link io clock
    modify count_reset
    log clock request info (resetting done)
    branch done (pure tt)
        (fail clock request "reinit.reset" (transport (disconnected_error "link not recovered")))
    modify forget_detection
    transition clock State.idle
    probe

  abbrev pub restore_safe : ℕ → Result ℕ ChargerError → Op W Bool
  restore_safe request (ok raw) = do
    outcome ← attempt (write_reg io clock Regs.usbin_current_limit_cfg raw request)
    pure (is_ok outcome)
  restore_safe request (err e) = pure false

  abbrev pub shut : Bool → Op W Unit
  shut was_closed = branch was_closed (pure tt) (do
    request ← next_request
    config ← gets (λ p. p.config)
    done ←
        restore_safe request (icl_encode config.icl (quantize_down config.icl config.safe_icl_ua))
    transition clock State.closed
    log clock request info (closing done))

  -- `close`, which `Drop` calls too.
  unfoldable pub close : Op W Unit
  close = do was_closed ← gets (λ p. state_eq p.state State.closed); shut was_closed
