-- ===== src/Smb/Charger/Transparent.antt =====
-- The register access and the steps around it keep every property of the session that the world, the
-- journal and the counters do not touch, or touch without harm.
use Prim.Native.String.{String}
use nabu_charger.Prelude.{ℕ, zero, suc, ◌+◌, ◌≡◌, refl, inl, inr, Bool-cases, true, Result, ok, err}
use nabu_charger.Prelude.Methods.{modify}
use nabu_charger.Prelude.Methods.Keeps.{Keeps, bind-Keeps, branch-Keeps, keeps_rules}
use nabu_charger.Smb.Error.{TransportError, ChargerError, kind_recoverable}
use nabu_charger.Smb.Journal.{Level, EventKind, is_plain}
use nabu_charger.Smb.Platform.{ChargerTransport, Clock}
use nabu_charger.Smb.Charger.{
  Charger, Op, State, state_eq, now, log, next_request, require_open, count_retry, count_reset,
  count_error,
}
use nabu_charger.Smb.Charger.Registers.{
  reset_link, recover, give_up, cure, last_call, retried, retry, note_read, read_done, read_loop,
  read_reg, verify, note_write, write_done, write_loop, write_reg, update_reg,
}

-- A property that the parts of a register access keep.
pub record IsTransparent {W : Type 0} (io : ChargerTransport W) (clock : Clock W)
    (P : Charger W → Type 0) : Type 0 where
  pub world_moves : (p : Charger W) (w : W) → P p → P (record p { world = w })
  pub request_counts : (p : Charger W) (id : ℕ) → P p → P (record p { request_id = id })
  pub logs :
      (request : ℕ) (level : Level) (k : EventKind)
      → is_plain k ≡ true
      → Keeps P (log clock request level k)
  pub notes_read :
      (addr request started value : ℕ) → Keeps P (note_read io clock addr request started value)
  pub notes_write :
      (addr value request started : ℕ) → Keeps P (note_write io clock addr value request started)
  pub retry_counts : (p : Charger W) → P p → P (count_retry p)
  pub reset_counts : (p : Charger W) → P p → P (count_reset p)
  pub error_counts : (p : Charger W) → P p → P (count_error p)

module _ {W : Type 0} {P : Charger W → Type 0} (io : ChargerTransport W) (clock : Clock W)
    (t : IsTransparent io clock P) where
  pub now-Keeps : Keeps P (now clock)
  unfolding now
  now-Keeps = record { keeps = λ p h. t.world_moves p (clock.now_ms p.world).1 h }

  pub next_request-Keeps : Keeps P (next_request)
  unfolding next_request
  next_request-Keeps = record { keeps = λ p h. t.request_counts p _ h }

  pub require_open-Keeps : Keeps P (require_open)
  require_open-Keeps = record {
    keeps = λ p h. elim (Bool-cases (state_eq p.state State.closed)) [
      | inl e ↦ rw e h
      | inr e ↦ rw e h
    ];
  }

  pub reset_link-Keeps : Keeps P (reset_link io clock)
  unfolding reset_link
  reset_link-Keeps = record { keeps = λ p h. t.world_moves p (io.reset p.world).1 h }

  pub log-Keeps :
      (request : ℕ) (level : Level) (k : EventKind)
      → is_plain k ≡ true
      → Keeps P (log clock request level k)
  log-Keeps = t.logs

  pub count_retry-Keeps : Keeps {E = ChargerError} P (modify count_retry)
  count_retry-Keeps = record { keeps = t.retry_counts }

  pub count_reset-Keeps : Keeps {E = ChargerError} P (modify count_reset)
  count_reset-Keeps = record { keeps = t.reset_counts }

  pub count_error-Keeps : Keeps {E = ChargerError} P (modify count_error)
  count_error-Keeps = record { keeps = t.error_counts }

  note_read-Keeps :
      (addr request started value : ℕ) → Keeps P (note_read io clock addr request started value)
  note_read-Keeps = t.notes_read

  note_write-Keeps :
      (addr value request started : ℕ) → Keeps P (note_write io clock addr value request started)
  note_write-Keeps = t.notes_write

  ruleset plain_steps = (
    keeps_rules, log-Keeps, now-Keeps, next_request-Keeps, count_error-Keeps, count_retry-Keeps,
    count_reset-Keeps, reset_link-Keeps, refl,
  )

  give_up-Keeps : {A : Type 0} (e : TransportError) → Keeps {A = A} P (give_up io clock e)
  give_up-Keeps e = search (plain_steps) depth 24

  recover-Keeps :
      (request : ℕ) (op : String) (attempt : ℕ) (e : TransportError)
      → Keeps P (recover io clock request op attempt e)
  unfolding recover
  recover-Keeps request op attempt e = search (plain_steps, give_up-Keeps) depth 24

  module _ {A C : Type 0} (done : A → Op W C) (h : (a : A) → Keeps P (done a)) (request : ℕ)
      (op : String) where
    moved :
        (w : W) (m : Op W C) (p : Charger W) → Keeps P m → P p → P (m (record p { world = w })).1
    moved w m p k l = k.keeps (record p { world = w }) (t.world_moves p w l)

    last_call-logged :
        (r : Result A TransportError) (w : W) (p : Charger W)
        → P p
        → P (last_call io clock done r w p).1
    last_call-logged (ok a) w p l = moved w (done a) p (h a) l
    last_call-logged (err e) w p l = moved w (give_up io clock e) p (give_up-Keeps e) l

    retried-logged :
        (attempt : ℕ) (again : Op W C)
        → Keeps P again
        → (r : Result A TransportError) (w : W) (p : Charger W) → P p
        → P (retried io clock done request op attempt again r w p).1
    retried-logged attempt again k (ok a) w p l = moved w (done a) p (h a) l
    retried-logged attempt again k (err e) w p l =
        moved w (cure io clock request op attempt e again) p
          (branch-Keeps (kind_recoverable e.kind) _ _
            (bind-Keeps _ _ (recover-Keeps request op attempt e) (λ u. k)) (give_up-Keeps e))
          l

    retry-Keeps :
        (call : W → Result A TransportError × W) (left attempt : ℕ)
        → Keeps P (retry io clock call done request op left attempt)
    unfolding retry
    retry-Keeps call zero attempt = record {
      keeps = λ p l. last_call-logged (call p.world).0 (call p.world).1 p l;
    }
    retry-Keeps call (suc left) attempt = record {
      keeps = λ p l.
          retried-logged (attempt + 1) (retry io clock call done request op left (attempt + 1))
            (retry-Keeps call left (attempt + 1)) (call p.world).0 (call p.world).1 p l;
    }

  pub read_done-Keeps :
      (addr request started value : ℕ) → Keeps P (read_done io clock addr request started value)
  unfolding read_done
  read_done-Keeps addr request started value = search (plain_steps, note_read-Keeps) depth 24

  pub read_loop-Keeps :
      (addr request started : ℕ) → Keeps P (read_loop io clock addr request started)
  unfolding read_loop
  read_loop-Keeps addr request started = record {
    keeps = λ p.
        (retry-Keeps (read_done io clock addr request started)
            (read_done-Keeps addr request started) request "read" (io.read addr)
            p.config.max_transport_retries 0).keeps
          p;
  }

  pub read_reg-Keeps : (addr request : ℕ) → Keeps P (read_reg io clock addr request)
  unfolding read_reg
  read_reg-Keeps addr request = search (plain_steps, now-Keeps, read_loop-Keeps) depth 24

  pub verify-Keeps : (addr wrote request : ℕ) → Keeps P (verify io clock addr wrote request)
  unfolding verify
  verify-Keeps addr wrote request = search (plain_steps, read_reg-Keeps) depth 24

  pub write_done-Keeps :
      (addr value request started : ℕ) (u : Unit)
      → Keeps P (write_done io clock addr value request started u)
  unfolding write_done
  write_done-Keeps addr value request started u =
      search (plain_steps, note_write-Keeps, verify-Keeps) depth 24

  pub write_loop-Keeps :
      (addr value request started : ℕ) → Keeps P (write_loop io clock addr value request started)
  unfolding write_loop
  write_loop-Keeps addr value request started = record {
    keeps = λ p.
        (retry-Keeps (write_done io clock addr value request started)
            (write_done-Keeps addr value request started) request "write" (io.write addr value)
            p.config.max_transport_retries 0).keeps
          p;
  }

  pub write_reg-Keeps : (addr value request : ℕ) → Keeps P (write_reg io clock addr value request)
  unfolding write_reg
  write_reg-Keeps addr value request = search (plain_steps, now-Keeps, write_loop-Keeps) depth 24

  pub update_reg-Keeps :
      (addr mask value request : ℕ) → Keeps P (update_reg io clock addr mask value request)
  unfolding update_reg
  update_reg-Keeps addr mask value request =
      search (plain_steps, read_reg-Keeps, write_reg-Keeps) depth 24
