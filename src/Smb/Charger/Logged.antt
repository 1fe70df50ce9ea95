-- ===== src/Smb/Charger/Logged.antt =====
-- What the journal says of the session: the state changes lead from `closed` to the present state, the
-- records are numbered one after the other, and the read and write counters count its records.
pub mod Methods
pub mod Sessions
pub mod Runs
use nabu_charger.Prelude.{
  ℕ, ◌+◌, ◌≡◌, refl, inl, inr, Bool-cases, Bool, true, false, List, [], ◌∷◌, length, min, u64_max,
  Result, ok, err, arith, ◌==◌, if◌then◌else◌,
}
use nabu_charger.Prelude.Methods.{modify, ◌>>=◌}
use nabu_charger.Prelude.Methods.Keeps.{Keeps, modify-Keeps}
use nabu_charger.Smb.Journal.{
  Level, debug, EventKind, Event, opening, closing, reading, writing, detection, policy, retrying,
  resetting, state_change, failure, is_plain,
}
use nabu_charger.Smb.Platform.{Clock}
use nabu_charger.Smb.Charger.{
  Charger, ChargerConfig, State, state_eq, state_label, fresh, now, log, transition,
}

-- What a record says of the state after it, given what holds of the state before it.
abbrev pub Moves : EventKind → (State → Type 0) → State → Type 0
Moves (state_change from to) Before s =
    (r : State) × Before r × (from ≡ state_label r) × (to ≡ state_label s)
Moves (opening name done) Before s = Before s
Moves (closing done) Before s = Before s
Moves (reading addr value us) Before s = Before s
Moves (writing addr value us) Before s = Before s
Moves (detection adapter status result ms) Before s = Before s
Moves (policy adapter ua raw voltage eligible) Before s = Before s
Moves (retrying op n reason) Before s = Before s
Moves (resetting done) Before s = Before s
Moves (failure op code) Before s = Before s

-- The state changes of a journal, newest first, lead from `closed` to `s`.
abbrev pub Replays : List Event → State → Type 0
Replays [] s = s ≡ State.closed
Replays (e ∷ l) s = Moves e.kind (Replays l) s

abbrev pub reads_of : EventKind → ℕ
reads_of (reading addr value us) = 1
reads_of k = 0

abbrev pub writes_of : EventKind → ℕ
writes_of (writing addr value us) = 1
writes_of k = 0

abbrev pub total : (EventKind → ℕ) → List Event → ℕ
total f [] = 0
total f (e ∷ l) = f e.kind + total f l

-- The records of a journal, newest first, carry the numbers from 1 on, up to the largest `u64`.
abbrev pub Numbered : List Event → Type 0
Numbered [] = Unit
Numbered (e ∷ l) = (e.seq ≡ min (length (e ∷ l)) u64_max) × Numbered l

pub record IsLogged {W : Type 0} (p : Charger W) : Type 0 where
  pub replayed : Replays p.journal p.state
  pub last_number : p.seq ≡ min (length p.journal) u64_max
  pub numbered : Numbered p.journal
  pub reads_counted : p.stats.reads ≡ min (total reads_of p.journal) u64_max
  pub writes_counted : p.stats.writes ≡ min (total writes_of p.journal) u64_max

pub fresh-IsLogged : {W : Type 0} (config : ChargerConfig) (w : W) → IsLogged (fresh config w)
fresh-IsLogged config w = record {
  replayed = refl;
  last_number = omega arith;
  numbered = tt;
  reads_counted = omega arith;
  writes_counted = omega arith;
}

plain-Moves :
    (k : EventKind) (B : State → Type 0) (s : State) → is_plain k ≡ true → B s → Moves k B s
plain-Moves (state_change from to) B s e b = absurd (cc)
plain-Moves (opening name done) B s e b = b
plain-Moves (closing done) B s e b = b
plain-Moves (reading addr value us) B s e b = b
plain-Moves (writing addr value us) B s e b = b
plain-Moves (detection adapter status result ms) B s e b = b
plain-Moves (policy adapter ua raw voltage eligible) B s e b = b
plain-Moves (retrying op n reason) B s e b = b
plain-Moves (resetting done) B s e b = b
plain-Moves (failure op code) B s e b = b

plain_counts : (k : EventKind) → is_plain k ≡ true → (reads_of k ≡ 0) × (writes_of k ≡ 0)
plain_counts (state_change from to) e = (refl, refl)
plain_counts (reading addr value us) e = absurd (cc)
plain_counts (writing addr value us) e = absurd (cc)
plain_counts (opening name done) e = (refl, refl)
plain_counts (closing done) e = (refl, refl)
plain_counts (detection adapter status result ms) e = (refl, refl)
plain_counts (policy adapter ua raw voltage eligible) e = (refl, refl)
plain_counts (retrying op n reason) e = (refl, refl)
plain_counts (resetting done) e = (refl, refl)
plain_counts (failure op code) e = (refl, refl)

module _ {W : Type 0} (clock : Clock W) where
  log_plain :
      (request : ℕ) (level : Level) (k : EventKind)
      → is_plain k ≡ true
      → (p : Charger W) → IsLogged p
      → IsLogged (log clock request level k p).1
  unfolding log
  log_plain request level k e p h = record {
    replayed = plain-Moves k (Replays p.journal) p.state e h.replayed;
    last_number = omega (arith, h.last_number);
    numbered = (omega (arith, h.last_number), h.numbered);
    reads_counted = omega (arith, h.reads_counted, (plain_counts k e).0);
    writes_counted = omega (arith, h.writes_counted, (plain_counts k e).1);
  }

  pub log-Keeps :
      (request : ℕ) (level : Level) (k : EventKind)
      → is_plain k ≡ true
      → Keeps IsLogged (log clock request level k)
  log-Keeps request level k e = record { keeps = log_plain request level k e }

  changed_state :
      (request : ℕ) (level : Level) (to : State) (p : Charger W)
      → IsLogged p
      → IsLogged
          (log clock request level
            (state_change (state_label p.state) (state_label to))
            (record p { state = to })).1
  unfolding log
  changed_state request level to p h = record {
    replayed = (p.state, h.replayed, refl, refl);
    last_number = omega (arith, h.last_number);
    numbered = (omega (arith, h.last_number), h.numbered);
    reads_counted = omega (arith, h.reads_counted);
    writes_counted = omega (arith, h.writes_counted);
  }

  pub transition-Keeps : (to : State) → Keeps IsLogged (transition clock to)
  unfolding transition
  transition-Keeps to = record {
    keeps = λ p h. elim (Bool-cases (state_eq p.state to)) [
      | inl e ↦ rw e h
      | inr e ↦ rw e (changed_state p.request_id debug to p h)
    ];
  }
