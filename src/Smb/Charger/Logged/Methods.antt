-- ===== src/Smb/Charger/Logged/Methods.antt =====
-- The steps that the methods are made of keep the journal true.
use Prim.Native.String.{String}
use nabu_charger.Prelude.{
  ℕ, zero, suc, ◌+◌, ◌≡◌, refl, Bool, true, false, Option, some, none, Result, ok, err, arith,
  length, min, u64_max,
}
use nabu_charger.Prelude.Methods.{modify, ◌>>=◌}
use nabu_charger.Prelude.Methods.Keeps.{
  Keeps, modify-Keeps, bind-Keeps, rescue-Keeps, branch-Keeps, pure-Keeps, throw-Keeps, lift-Keeps,
  gets-Keeps, attempt-Keeps, keeps_rules,
}
use nabu_charger.Smb.Error.{ChargerError}
use nabu_charger.Smb.Platform.{ChargerTransport, Clock}
use nabu_charger.Smb.Charger.{
  Charger, Op, now, log, fail, next_request, require_open, count_retry, count_reset, count_error,
}
use nabu_charger.Smb.Charger.Registers.{elapsed_us, note_read, note_write}
use nabu_charger.Smb.Charger.Session.{or_fail}
use nabu_charger.Smb.Charger.Transparent.{
  IsTransparent, reset_link-Keeps, read_reg-Keeps, write_reg-Keeps, update_reg-Keeps,
}
use nabu_charger.Smb.Charger.Logged.{IsLogged, log-Keeps, transition-Keeps}

-- What the journal is about is as it was.
abbrev SameLog : {W : Type 0} → Charger W → Charger W → Type 0
SameLog p q =
    (q.journal ≡ p.journal)
    × (q.state ≡ p.state)
    × (q.seq ≡ p.seq)
    × (q.stats.reads ≡ p.stats.reads)
    × (q.stats.writes ≡ p.stats.writes)

SameLog-IsLogged : {W : Type 0} (p q : Charger W) → SameLog p q → IsLogged p → IsLogged q
SameLog-IsLogged p q (j, s, n, r, w) h = record {
  replayed = rw (j, s) h.replayed;
  last_number = rw (j, n) h.last_number;
  numbered = rw j h.numbered;
  reads_counted = rw (j, r) h.reads_counted;
  writes_counted = rw (j, w) h.writes_counted;
}

pub quiet-Keeps :
    {W A : Type 0} (m : Op W A) → ((p : Charger W) → SameLog p (m p).1) → Keeps IsLogged m
quiet-Keeps m h = record { keeps = λ p. SameLog-IsLogged p (m p).1 (h p) }

pub silent-Keeps :
    {W : Type 0} (f : Charger W → Charger W)
    → ((p : Charger W) → SameLog p (f p))
    → Keeps {E = ChargerError} IsLogged (modify f)
silent-Keeps f h = quiet-Keeps (modify f) h

pub next_request-Keeps : {W : Type 0} → Keeps {S = Charger W} IsLogged next_request
unfolding next_request
next_request-Keeps = quiet-Keeps next_request (λ p. (refl, refl, refl, refl, refl))

pub require_open-Keeps : {W : Type 0} → Keeps {S = Charger W} IsLogged require_open
require_open-Keeps = quiet-Keeps require_open (λ p. ground arith)

pub count_error-Keeps :
    {W : Type 0} → Keeps {S = Charger W} {E = ChargerError} IsLogged (modify count_error)
count_error-Keeps = silent-Keeps count_error (λ p. (refl, refl, refl, refl, refl))

pub ruleset plain_steps = (
  keeps_rules, log-Keeps, transition-Keeps, next_request-Keeps, require_open-Keeps,
  count_error-Keeps, refl,
)

pub now-Keeps : {W : Type 0} (clock : Clock W) → Keeps IsLogged (now clock)
unfolding now
now-Keeps clock = quiet-Keeps (now clock) (λ p. (refl, refl, refl, refl, refl))

module _ {W : Type 0} (io : ChargerTransport W) (clock : Clock W) where
  pub fail-Keeps :
      {A : Type 0} (request : ℕ) (op : String) (e : ChargerError)
      → Keeps {A = A} IsLogged (fail clock request op e)
  unfolding fail
  fail-Keeps request op e = search (plain_steps) depth 24

  -- A counted read and its record.
  note_read-Keeps :
      (addr request started value : ℕ)
      → Keeps IsLogged (note_read io clock addr request started value)
  unfolding note_read elapsed_us now log ◌>>=◌
  note_read-Keeps addr request started value = record {
    keeps = λ p h. record {
      replayed = h.replayed;
      last_number = omega (arith, h.last_number);
      numbered = (omega (arith, h.last_number), h.numbered);
      reads_counted = omega (arith, h.reads_counted);
      writes_counted = omega (arith, h.writes_counted);
    };
  }

  note_write-Keeps :
      (addr value request started : ℕ)
      → Keeps IsLogged (note_write io clock addr value request started)
  unfolding note_write elapsed_us now log ◌>>=◌
  note_write-Keeps addr value request started = record {
    keeps = λ p h. record {
      replayed = h.replayed;
      last_number = omega (arith, h.last_number);
      numbered = (omega (arith, h.last_number), h.numbered);
      reads_counted = omega (arith, h.reads_counted);
      writes_counted = omega (arith, h.writes_counted);
    };
  }

  pub IsLogged-IsTransparent : IsTransparent io clock IsLogged
  IsLogged-IsTransparent = record {
    world_moves = λ p w. SameLog-IsLogged p (record p { world = w }) (refl, refl, refl, refl, refl);
    request_counts =
        λ p id. SameLog-IsLogged p (record p { request_id = id }) (refl, refl, refl, refl, refl);
    logs = log-Keeps clock;
    notes_read = note_read-Keeps;
    notes_write = note_write-Keeps;
    retry_counts = λ p. SameLog-IsLogged p (count_retry p) (refl, refl, refl, refl, refl);
    reset_counts = λ p. SameLog-IsLogged p (count_reset p) (refl, refl, refl, refl, refl);
    error_counts = λ p. SameLog-IsLogged p (count_error p) (refl, refl, refl, refl, refl);
  }

  pub or_fail-Keeps :
      {A : Type 0} (request : ℕ) (op : String) (m : Op W A)
      → Keeps IsLogged m
      → Keeps IsLogged (or_fail clock request op m)
  or_fail-Keeps request op m k = rescue-Keeps m (fail clock request op) k (fail-Keeps request op)

pub count_reset-Keeps :
    {W : Type 0} → Keeps {S = Charger W} {E = ChargerError} IsLogged (modify count_reset)
count_reset-Keeps = silent-Keeps count_reset (λ p. (refl, refl, refl, refl, refl))

pub ruleset logged_steps = (
  plain_steps, now-Keeps, reset_link-Keeps, fail-Keeps, count_reset-Keeps, read_reg-Keeps,
  write_reg-Keeps, update_reg-Keeps, or_fail-Keeps, IsLogged-IsTransparent,
)
