-- ===== src/Smb/Charger/Closed.antt =====
-- A closed session stays as it is.
use nabu_charger.Prelude.{◌≡◌, refl, ap, ◌∙◌, true, List, [], ◌∷◌, ◌++◌, Result, ok, err}
use nabu_charger.Prelude.Methods.{◌>>=◌, branch}
use nabu_charger.Prelude.Methods.Ends.{Done}
use nabu_charger.Smb.Error.{ChargerError}
use nabu_charger.Smb.Platform.{ChargerTransport, Clock}
use nabu_charger.Smb.Charger.{Charger, ChargerConfig, State, state_eq}
use nabu_charger.Smb.Charger.Session.{reinit, close}
use nabu_charger.Smb.Charger.Detect.{detect_step}
use nabu_charger.Smb.Charger.Apply.{apply, monitor}
use nabu_charger.Smb.Charger.View.{View, view}
use nabu_charger.Smb.Charger.View.Recovers.{close-Ends}
use nabu_charger.Smb.Charger.Logged.Runs.{
  Call, detects, monitors, reinits, closes, applies, passes, called, session,
}

-- Everything but the world is as it was.
abbrev pub Untouched : {W : Type 0} → Charger W → Charger W → Type 0
Untouched p q = q ≡ record p { world = q.world }

module _ {W : Type 0} (io : ChargerTransport W) (clock : Clock W) where
  called-Untouched :
      (c : Call W) (p : Charger W)
      → state_eq p.state State.closed ≡ true
      → Untouched p (called io clock c p)
  unfolding detect_step monitor reinit close apply ◌>>=◌ branch
  called-Untouched detects p e = rw (e, called) refl
  called-Untouched monitors p e = rw (e, called) refl
  called-Untouched reinits p e = rw (e, called) refl
  called-Untouched closes p e = rw (e, called) refl
  called-Untouched (applies a) p e = rw (e, called) refl
  called-Untouched (passes f) p e = refl

  shut_at :
      (v : View) (o : Result (Unit {0}) ChargerError × Charger W)
      → Done (λ u q. view q ≡ record v { state = State.closed }) (λ e q. ⊥) o
      → state_eq o.1.state State.closed ≡ true
  shut_at v (ok tt, q) h = ap (λ (x : View). state_eq x.state State.closed) h
  shut_at v (err e, q) h = elim h [ ]

  closed_after : (p : Charger W) → state_eq (close io clock p).1.state State.closed ≡ true
  closed_after p = shut_at (view p) (close io clock p) ((close-Ends io clock (view p)).ends p refl)

  -- Closing closes the session on any transport and clock, and whatever is called afterwards changes
  -- nothing of it: no state, no counter, no record of the journal.
  pub close-Untouched :
      (config : ChargerConfig) (w : W) (before after : List (Call W))
      → (state_eq (session io clock config w (after ++ closes ∷ before)).state State.closed ≡ true)
        × Untouched
            (session io clock config w (closes ∷ before))
            (session io clock config w (after ++ closes ∷ before))
  close-Untouched config w before [] = (closed_after (session io clock config w before), refl)
  close-Untouched config w before (c ∷ after) =
      let (s, u) = close-Untouched config w before after in
      let p = session io clock config w (after ++ closes ∷ before) in
      let again : Untouched p (called io clock c p) = called-Untouched c p s in
      (
        ap (λ (q : Charger W). state_eq q.state State.closed) again ∙ s,
        again ∙ ap (λ (q : Charger W). record q { world = (called io clock c p).world }) u,
      )
