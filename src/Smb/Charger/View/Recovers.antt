-- ===== src/Smb/Charger/View/Recovers.antt =====
-- What reopening the link and closing do to the session.
use nabu_charger.Prelude.{ℕ, ◌≡◌, ap, ◌∙◌, inl, inr, ◌⊎◌, false, none, Result, ok, err}
use nabu_charger.Prelude.Methods.Ends.{
  Ends, bind-Ends, branch-Ends, weaken-Ends, known-Ends, kept-Ends, throw-Ends, pure-Ends,
  modify-Ends,
}
use nabu_charger.Smb.Error.{ChargerError}
use nabu_charger.Smb.Platform.{ChargerTransport, Clock}
use nabu_charger.Smb.Charger.{Charger, State, state_eq, count_reset}
use nabu_charger.Smb.Charger.Registers.{reset_link}
use nabu_charger.Smb.Charger.Session.{probe, reinit, restore_safe, close}
use nabu_charger.Smb.Charger.Transparent.{read_reg-Keeps, write_reg-Keeps}
use nabu_charger.Smb.Charger.View.{
  View, already_in, state_eq_sound, Has, After, in_state, view-IsTransparent, log-Ends,
  request-Ends, require_open-Ends, transition-Ends, fail-Ends,
}

-- The session as after opening.
abbrev pub renewed : View → View
renewed v = record v {
  state = State.idle;
  adapter = none;
  detect_started_ms = none;
  reruns = 0;
  attempts = 0;
}

module _ {W : Type 0} (io : ChargerTransport W) (clock : Clock W) (v : View) where
  reset-Ends :
      {X : ChargerError → Charger W → Type 0} → Ends (Has v) (reset_link io clock) (λ done. Has v) X
  unfolding reset_link
  reset-Ends = record { ends = λ p h. h }

  probe-Ends : Ends (Has v) (probe io clock) (λ u. Has v) (λ e. Has v)
  unfolding probe
  probe-Ends =
      bind-Ends (λ r. Has v) _ _ (request-Ends v)
        (λ request.
          bind-Ends (λ s. Has v) _ _
            (kept-Ends _ (read_reg-Keeps io clock (view-IsTransparent io clock v) _ _) (λ a p h. h)
              (λ e p h. h))
            (λ status.
              branch-Ends _ _ _ (λ t. throw-Ends _ (λ p h. h)) (λ f. pure-Ends tt (λ p h. h))))

-- A failed recovery: the link was not reset and the session is faulted, or the link was reset and the
-- session renewed but its probe failed.
abbrev pub Unrecovered : View → View → Type 0
Unrecovered v w = (w ≡ in_state State.faulted v) ⊎ (w ≡ renewed v)

module _ {W : Type 0} (io : ChargerTransport W) (clock : Clock W) (v : View) where
  pub reinit-Ends :
      state_eq v.state State.closed ≡ false
      → Ends (Has v) (reinit io clock) (λ u. Has (renewed v)) (λ e. After (Unrecovered v))
  unfolding reinit
  reinit-Ends o =
      let forgotten = record v {
        adapter = none;
        detect_started_ms = none;
        reruns = 0;
        attempts = 0;
      } in
      bind-Ends (λ u. Has v) _ _ (require_open-Ends v o)
        (λ u.
          bind-Ends (λ r. Has v) _ _ (request-Ends v)
            (λ request.
              bind-Ends (λ d. Has v) _ _ (reset-Ends io clock v)
                (λ done.
                  bind-Ends (λ u. Has v) _ _ (modify-Ends count_reset (λ p h. h))
                    (λ u.
                      bind-Ends (λ u. Has v) _ _ (log-Ends clock v request _ _)
                        (λ u.
                          bind-Ends (λ u. Has v) _ _
                            (branch-Ends _ _ _ (λ t. pure-Ends tt (λ p h. h))
                              (λ f.
                                weaken-Ends (λ a p h. h) (λ e p h. inl h)
                                  (fail-Ends clock v request _ _)))
                            (λ u.
                              bind-Ends (λ u. Has forgotten) _ _
                                (modify-Ends _ (λ p h.
                                  ap
                                    (λ (x : View). record x {
                                      adapter = none;
                                      detect_started_ms = none;
                                      reruns = 0;
                                      attempts = 0;
                                    })
                                    h))
                                (λ u.
                                  bind-Ends (λ u. Has (renewed v)) _ _
                                    (transition-Ends clock forgotten State.idle)
                                    (λ u.
                                      weaken-Ends (λ a p h. h) (λ e p h. inr h)
                                        (probe-Ends io clock (renewed v))))))))))

  restore-Ends :
      (request : ℕ) (r : Result ℕ ChargerError)
      → Ends (Has v) (restore_safe io clock request r) (λ d. Has v) (λ e p. ⊥)
  restore-Ends request (ok raw) =
      bind-Ends (λ r. Has v) _ _
        (record { ends = (write_reg-Keeps io clock (view-IsTransparent io clock v) _ _ _).keeps })
        (λ r. pure-Ends _ (λ p h. h))
  restore-Ends request (err e) = pure-Ends false (λ p h. h)

  -- Closing always succeeds.
  pub close-Ends : Ends (Has v) (close io clock) (λ u. Has (in_state State.closed v)) (λ e p. ⊥)
  unfolding close
  close-Ends =
      known-Ends _ (state_eq v.state State.closed) _
        (λ p h. ap (λ (x : View). state_eq x.state State.closed) h)
        (branch-Ends _ _ _
          (λ t. pure-Ends tt (λ p h.
            already_in v State.closed p h
              (ap (λ (x : View). x.state) h ∙ state_eq_sound v.state State.closed t)))
          (λ f.
            bind-Ends (λ r. Has v) _ _ (request-Ends v)
              (λ request.
                known-Ends _ v.config _ (λ p h. ap (λ (x : View). x.config) h)
                  (bind-Ends (λ d. Has v) _ _ (restore-Ends request _)
                    (λ done.
                      bind-Ends (λ u. Has (in_state State.closed v)) _ _
                        (transition-Ends clock v State.closed)
                        (λ u. log-Ends clock (in_state State.closed v) request _ _))))))
