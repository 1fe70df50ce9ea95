-- ===== src/Smb/Charger/Logged/Runs.antt =====
-- The journal over a whole session, whatever is called and whatever the platform does.
use nabu_charger.Prelude.{◌≡◌, List, [], ◌∷◌, min, u64_max}
use nabu_charger.Smb.Adapter.{AdapterType}
use nabu_charger.Smb.Platform.{ChargerTransport, Clock}
use nabu_charger.Smb.Charger.{Charger, ChargerConfig, fresh}
use nabu_charger.Smb.Charger.Session.{open_charger, reinit, close}
use nabu_charger.Smb.Charger.Detect.{detect_step}
use nabu_charger.Smb.Charger.Apply.{apply, monitor}
use nabu_charger.Smb.Charger.Logged.{
  IsLogged, fresh-IsLogged, Replays, Numbered, total, reads_of, writes_of,
}
use nabu_charger.Smb.Charger.Logged.Sessions.{
  open_session-Keeps, detect_step-Keeps, apply-Keeps, monitor-Keeps, reinit-Keeps, close-Keeps,
}

-- The calls of a session. Between two calls the world may move by itself.
pub data Call (W : Type 0) : Type 0 where
  detects monitors reinits closes : Call W
  applies : AdapterType → Call W
  passes : (W → W) → Call W

module _ {W : Type 0} (io : ChargerTransport W) (clock : Clock W) where
  abbrev pub called : Call W → Charger W → Charger W
  called detects p = (detect_step io clock p).1
  called monitors p = (monitor io clock p).1
  called reinits p = (reinit io clock p).1
  called closes p = (close io clock p).1
  called (applies a) p = (apply io clock a p).1
  called (passes f) p = record p { world = f p.world }

  -- The charger after the calls, the newest call first.
  abbrev pub session : ChargerConfig → W → List (Call W) → Charger W
  session config w [] = (open_charger io clock config w).1
  session config w (c ∷ l) = called c (session config w l)

  called-IsLogged : (c : Call W) (p : Charger W) → IsLogged p → IsLogged (called c p)
  called-IsLogged detects p h = (detect_step-Keeps io clock).keeps p h
  called-IsLogged monitors p h = (monitor-Keeps io clock).keeps p h
  called-IsLogged reinits p h = (reinit-Keeps io clock).keeps p h
  called-IsLogged closes p h = (close-Keeps io clock).keeps p h
  called-IsLogged (applies a) p h = (apply-Keeps io clock a).keeps p h
  called-IsLogged (passes f) p h = record {
    replayed = h.replayed;
    last_number = h.last_number;
    numbered = h.numbered;
    reads_counted = h.reads_counted;
    writes_counted = h.writes_counted;
  }

  session-IsLogged_all :
      (config : ChargerConfig) (w : W) (l : List (Call W)) → IsLogged (session config w l)
  session-IsLogged_all config w [] =
      (open_session-Keeps io clock).keeps (fresh config w) (fresh-IsLogged config w)
  session-IsLogged_all config w (c ∷ l) =
      called-IsLogged c (session config w l) (session-IsLogged_all config w l)

  -- On any transport and clock and after any calls of a session, successful or failed, the state changes
  -- in the journal lead without a gap from `closed` to the present state, the records are numbered one
  -- after the other, and the read and write counters are the numbers of read and write records (up to
  -- the largest `u64`).
  pub session-IsLogged :
      (config : ChargerConfig) (w : W) (l : List (Call W))
      → Replays (session config w l).journal (session config w l).state
        × Numbered (session config w l).journal
        × ((session config w l).stats.reads
            ≡ min (total reads_of (session config w l).journal) u64_max)
        × ((session config w l).stats.writes
            ≡ min (total writes_of (session config w l).journal) u64_max)
  session-IsLogged config w l =
      let h = session-IsLogged_all config w l in
      (h.replayed, h.numbered, h.reads_counted, h.writes_counted)
