-- ===== src/Smb/Charger/View.antt =====
-- The part of the session that decides what its methods do, and how the steps of a method change it.
pub mod Detects
pub mod Outcomes
pub mod Applies
pub mod Recovers
pub mod Runs
use Prim.Native.String.{String}
use mathlib.Core.Path.{subst}
use nabu_charger.Prelude.{
  ℕ, ◌≡◌, refl, sym, ap, ◌∙◌, inl, inr, Bool-cases, Bool, true, false, Option, none, some, Result,
  ok, err, arith,
}
use nabu_charger.Prelude.Methods.{Method, modify, ◌>>=◌}
use nabu_charger.Prelude.Methods.Keeps.{Keeps}
use nabu_charger.Prelude.Methods.Ends.{
  Done, Ends, bind-Ends, throw-Ends, modify-Ends, rescue-Ends, kept-Ends,
}
use nabu_charger.Smb.Error.{ChargerError}
use nabu_charger.Smb.Adapter.{AdapterType}
use nabu_charger.Smb.Journal.{Level, debug, error, EventKind, failure, state_change}
use nabu_charger.Smb.Platform.{ChargerTransport, Clock}
use nabu_charger.Smb.Charger.{
  Charger, ChargerConfig, State, state_eq, Op, now, log, transition, fail, next_request,
  require_open, count_error,
}
use nabu_charger.Smb.Charger.Registers.{
  reset_link, note_read, note_write, elapsed_us, read_reg, write_reg, update_reg,
}
use nabu_charger.Smb.Charger.Session.{or_fail}
use nabu_charger.Smb.Charger.Transparent.{
  IsTransparent, read_reg-Keeps, write_reg-Keeps, update_reg-Keeps,
}

pub record View : Type 0 where
  pub config : ChargerConfig
  pub state : State
  pub adapter : Option AdapterType
  pub detect_started_ms : Option ℕ
  pub reruns : ℕ
  pub attempts : ℕ

abbrev pub view : {W : Type 0} → Charger W → View
view p = record {
  config = p.config;
  state = p.state;
  adapter = p.adapter;
  detect_started_ms = p.detect_started_ms;
  reruns = p.reruns;
  attempts = p.attempts;
}

abbrev pub Has : {W : Type 0} → View → Charger W → Type 0
Has v p = view p ≡ v

abbrev pub in_state : State → View → View
in_state s v = record v { state = s }

pub state_eq_sound : (a b : State) → state_eq a b ≡ true → a ≡ b
state_eq_sound a b e = ground arith

module _ {W : Type 0} (clock : Clock W) (v : View) where
  pub log-Has :
      (request : ℕ) (level : Level) (k : EventKind) → Keeps (Has v) (log clock request level k)
  unfolding log
  log-Has request level k = record { keeps = λ p h. h }

  pub log-Ends :
      {X : ChargerError → Charger W → Type 0} (request : ℕ) (level : Level) (k : EventKind)
      → Ends (Has v) (log clock request level k) (λ u. Has v) X
  unfolding log
  log-Ends request level k = record { ends = λ p h. h }

  pub now-Ends : {X : ChargerError → Charger W → Type 0} → Ends (Has v) (now clock) (λ ms. Has v) X
  unfolding now
  now-Ends = record { ends = λ p h. h }

pub request-Ends :
    {W : Type 0} {X : ChargerError → Charger W → Type 0} (v : View)
    → Ends (Has v) next_request (λ id. Has v) X
unfolding next_request
request-Ends v = record { ends = λ p h. h }

pub require_open-Ends :
    {W : Type 0} {X : ChargerError → Charger W → Type 0} (v : View)
    → state_eq v.state State.closed ≡ false
    → Ends (Has v) require_open (λ u. Has {W = W} v) X
require_open-Ends {X} v o = record {
  ends = λ p h.
      let e : state_eq p.state State.closed ≡ false =
        ap (λ (x : View). state_eq x.state State.closed) h ∙ o in
      rw e h;
}

module _ {W : Type 0} (io : ChargerTransport W) (clock : Clock W) (v : View) where
  note_read-Has :
      (addr request started value : ℕ)
      → Keeps (Has v) (note_read io clock addr request started value)
  unfolding note_read elapsed_us now log ◌>>=◌
  note_read-Has addr request started value = record { keeps = λ p h. h }

  note_write-Has :
      (addr value request started : ℕ)
      → Keeps (Has v) (note_write io clock addr value request started)
  unfolding note_write elapsed_us now log ◌>>=◌
  note_write-Has addr value request started = record { keeps = λ p h. h }

  pub view-IsTransparent : IsTransparent io clock (Has v)
  view-IsTransparent = record {
    world_moves = λ p w h. h;
    request_counts = λ p id h. h;
    logs = λ request level k e. log-Has clock v request level k;
    notes_read = note_read-Has;
    notes_write = note_write-Has;
    retry_counts = λ p h. h;
    reset_counts = λ p h. h;
    error_counts = λ p h. h;
  }

pub already_in :
    {W : Type 0} (v : View) (to : State) (p : Charger W)
    → Has v p
    → p.state ≡ to
    → Has (in_state to v) p
already_in v to p h e = ap (λ s. in_state s (view p)) e ∙ ap (in_state to) h

module _ {W : Type 0} (clock : Clock W) (v : View) where
  pub transition-Ends :
      {X : ChargerError → Charger W → Type 0} (to : State)
      → Ends (Has v) (transition clock to) (λ u. Has (in_state to v)) X
  unfolding transition log
  transition-Ends to = record {
    ends = λ p h. elim (Bool-cases (state_eq p.state to)) [
      | inl e ↦ rw e (already_in v to p h (state_eq_sound p.state to e))
      | inr e ↦ rw e (ap (in_state to) h)
    ];
  }

  -- A failure faults the session and keeps the error.
  abbrev pub Failed : ChargerError → Charger W → Type 0
  Failed e = Has (in_state State.faulted v)

  pub fail-Ends :
      {A : Type 0} {Q : A → Charger W → Type 0} (request : ℕ) (op : String) (e : ChargerError)
      → Ends (Has v) (fail clock request op e) Q Failed
  unfolding fail
  fail-Ends request op e =
      bind-Ends (λ u. Has v) _ _ (modify-Ends count_error (λ p h. h))
        (λ u.
          bind-Ends (λ u. Has (in_state State.faulted v)) _ _ (transition-Ends State.faulted)
            (λ u.
              bind-Ends (λ u. Has (in_state State.faulted v)) _ _
                (kept-Ends _ (log-Has clock (in_state State.faulted v) request error _) (λ u p h. h)
                  (λ x p h. h))
                (λ u. throw-Ends e (λ p h. h))))

  -- A method that keeps the view, under the handler of failures.
  pub or_fail-Ends :
      {A : Type 0} (request : ℕ) (op : String) (m : Op W A)
      → Keeps (Has v) m
      → Ends (Has v) (or_fail clock request op m) (λ a. Has v) Failed
  or_fail-Ends request op m k =
      rescue-Ends (λ e. Has v) m (fail clock request op) (kept-Ends m k (λ a p h. h) (λ e p h. h))
        (fail-Ends request op)

abbrev pub After : {W : Type 0} → (View → Type 0) → Charger W → Type 0
After P p = P (view p)

-- To prove an end from a known kind of view, prove it from each view of that kind.
pub from_view :
    {W A : Type 0} {m : Op W A} {Q : A → Charger W → Type 0} {X : ChargerError → Charger W → Type 0}
    (P : View → Type 0)
    → ((w : View) → P w → Ends (Has w) m Q X)
    → Ends (After P) m Q X
from_view P h = record { ends = λ p k. (h (view p) k).ends p refl }
