-- ===== src/Smb/Charger/Registers.antt =====
-- Register access with retries, the read-back of writes, and the reset of the link between attempts
-- (crates/core/src/driver.rs).
use Prim.Native.String.{String}
use nabu_charger.Prelude.{
  ℕ, zero, suc, ◌-◌, ◌*◌, Bool, true, false, ◌==◌, min, u64_max, ◌+◌, Result, ok, err,
}
use nabu_charger.Prelude.Methods.{pure, throw, modify, gets, branch, ◌>>=◌, ◌>>◌}
use nabu_charger.Ln8000.Bus.{merge}
use nabu_charger.Smb.Error.{
  TransportError, transport, verify_failed, kind_name, kind_recoverable, error_code,
}
use nabu_charger.Smb.Journal.{
  trace, debug, warn, error, reading, writing, retrying, resetting, failure,
}
use nabu_charger.Smb.Platform.{ChargerTransport, Clock}
use nabu_charger.Smb.Charger.{
  Op, now, log, count_read, count_written, count_retry, count_reset, count_error,
}

abbrev pub is_ok : {A E : Type 0} → Result A E → Bool
is_ok (ok a) = true
is_ok (err e) = false

module _ {W : Type 0} (io : ChargerTransport W) (clock : Clock W) where
  unfoldable pub elapsed_us : ℕ → Op W ℕ
  elapsed_us started_ms = do ms ← now clock; pure (min ((ms - started_ms) * 1_000) u64_max)

  -- `self.transport.reset().is_ok()`
  unfoldable pub reset_link : Op W Bool
  reset_link p = let (r, w) = io.reset p.world in (ok (is_ok r), record p { world = w })

  abbrev pub give_up : {A : Type 0} → TransportError → Op W A
  give_up e = do modify count_error; throw (transport e)

  unfoldable pub recover : ℕ → String → ℕ → TransportError → Op W Unit
  recover request op attempt e = do
    modify count_retry
    log clock request warn (retrying op attempt (kind_name e.kind))
    done ← reset_link
    modify count_reset
    log clock request debug (resetting done)
    branch done (pure tt) (give_up e)

  -- After a failed call: a reset and another round, or the error.
  abbrev pub cure : {C : Type 0} → ℕ → String → ℕ → TransportError → Op W C → Op W C
  cure request op attempt e again =
      branch (kind_recoverable e.kind) (do recover request op attempt e; again) (give_up e)

  module _ {A C : Type 0} where
    abbrev pub last_call : (A → Op W C) → Result A TransportError → W → Op W C
    last_call done (ok a) w p = done a (record p { world = w })
    last_call done (err e) w p = give_up e (record p { world = w })

    abbrev pub retried :
        (A → Op W C) → ℕ → String → ℕ → Op W C → Result A TransportError → W → Op W C
    retried done request op attempt again (ok a) w p = done a (record p { world = w })
    retried done request op attempt again (err e) w p =
        cure request op attempt e again (record p { world = w })

    -- The loop of `read_reg` and `write_reg`, with the retries that are left and the attempts made.
    unfoldable pub retry :
        (W → Result A TransportError × W) → (A → Op W C) → ℕ → String → ℕ → ℕ → Op W C
    retry call done request op zero attempt p = last_call done (call p.world).0 (call p.world).1 p
    retry call done request op (suc left) attempt p =
        retried done request op (attempt + 1) (retry call done request op left (attempt + 1))
          (call p.world).0 (call p.world).1 p

  unfoldable pub note_read : ℕ → ℕ → ℕ → ℕ → Op W Unit
  note_read addr request started value = do
    modify count_read
    us ← elapsed_us started
    log clock request trace (reading addr value us)

  -- What follows a successful read.
  unfoldable pub read_done : ℕ → ℕ → ℕ → ℕ → Op W ℕ
  read_done addr request started value = do note_read addr request started value; pure value

  unfoldable pub read_loop : ℕ → ℕ → ℕ → Op W ℕ
  read_loop addr request started p =
      retry (io.read addr) (read_done addr request started) request "read"
        p.config.max_transport_retries 0 p

  unfoldable pub read_reg : ℕ → ℕ → Op W ℕ
  read_reg addr request = do started ← now clock; read_loop addr request started

  abbrev pub compared : ℕ → ℕ → ℕ → ℕ → Op W Unit
  compared addr wrote request got = branch (got == wrote) (pure tt) (do
    modify count_error
    log clock request error (failure "verify" (error_code (verify_failed addr wrote got)))
    throw (verify_failed addr wrote got))

  abbrev pub read_back : Bool → ℕ → ℕ → ℕ → Op W Unit
  read_back verify_writes addr wrote request =
      branch verify_writes (do got ← read_reg addr request; compared addr wrote request got)
        (pure tt)

  -- The read-back that `verify_writes` asks for.
  unfoldable pub verify : ℕ → ℕ → ℕ → Op W Unit
  verify addr wrote request = do
    verify_writes ← gets (λ p. p.config.verify_writes)
    read_back verify_writes addr wrote request

  unfoldable pub note_write : ℕ → ℕ → ℕ → ℕ → Op W Unit
  note_write addr value request started = do
    modify count_written
    us ← elapsed_us started
    log clock request trace (writing addr value us)

  -- What follows a successful write.
  unfoldable pub write_done : ℕ → ℕ → ℕ → ℕ → Unit {0} → Op W Unit
  write_done addr value request started done = do
    note_write addr value request started
    verify addr value request

  unfoldable pub write_loop : ℕ → ℕ → ℕ → ℕ → Op W Unit
  write_loop addr value request started p =
      retry (io.write addr value) (write_done addr value request started) request "write"
        p.config.max_transport_retries 0 p

  unfoldable pub write_reg : ℕ → ℕ → ℕ → Op W Unit
  write_reg addr value request = do started ← now clock; write_loop addr value request started

  unfoldable pub update_reg : ℕ → ℕ → ℕ → ℕ → Op W Unit
  update_reg addr mask value request = do
    current ← read_reg addr request
    write_reg addr (merge current mask value) request
