-- ===== src/Smb/Charger/View/Detects.antt =====
-- What one detection step does to the session.
use Prim.Native.String.{String}
use mathlib.Core.Path.{subst}
use nabu_charger.Prelude.{
  ℕ, ◌+◌, ◌≤◌, ◌<◌, ◌≡◌, refl, sym, ap, ◌∙◌, inl, inr, ◌⊎◌, Bool, false, Option, none, some, Result,
  ok, err, arith, leb, min, u8_max,
}
use nabu_charger.Prelude.Methods.Ends.{
  Ends, bind-Ends, branch-Ends, weaken-Ends, known-Ends, pure-Ends, gets-Ends, modify-Ends,
}
use nabu_charger.Smb.Error.{ChargerError, detection_not_complete, adapter_check_timeout}
use nabu_charger.Smb.Adapter.{AdapterType}
use nabu_charger.Smb.Platform.{ChargerTransport, Clock}
use nabu_charger.Smb.Charger.{Charger, State, fail, count_detection}
use nabu_charger.Smb.Charger.Detect.{
  Detection, pending, ready, retry_detection, overdue, unstable, judged, still_pending,
}
use nabu_charger.Smb.Charger.Transparent.{update_reg-Keeps}
use nabu_charger.Smb.Charger.View.{
  View, Has, After, from_view, Failed, view-IsTransparent, log-Ends, transition-Ends, fail-Ends,
  or_fail-Ends,
}

-- The state once detection has begun.
abbrev pub begun_state : Option ℕ → State → State
begun_state none s = State.detecting
begun_state (some started) s = s

-- The step began detection, unless it had begun, and has not yet decided anything.
pub record Begun (v w : View) : Type 0 where
  pub same_config : w.config ≡ v.config
  pub same_adapter : w.adapter ≡ v.adapter
  pub same_reruns : w.reruns ≡ v.reruns
  pub begun_from : w.state ≡ begun_state v.detect_started_ms v.state

-- One more rerun than `v`, of those that the settings allow.
abbrev pub Reran : View → View → Type 0
Reran v w = (w.reruns ≡ v.reruns + 1) × (v.reruns < v.config.max_detect_reruns)

-- A step that ends undecided: on time with no rerun, or with one more rerun.
abbrev pub Undecided : View → ℕ → View → Type 0
Undecided v elapsed_ms w =
    (w.state ≡ begun_state v.detect_started_ms v.state)
    × (w.adapter ≡ v.adapter)
    × (w.config ≡ v.config)
    × (((elapsed_ms < v.config.detect_timeout_ms) × (w.reruns ≡ v.reruns)) ⊎ Reran v w)

-- What a step that began at `v` may end in.
abbrev pub Decided : View → Detection → View → Type 0
Decided v (ready a) w =
    (w.state ≡ State.ready) × (w.adapter ≡ some a) × (w.config ≡ v.config) × (w.reruns ≡ v.reruns)
Decided v (pending elapsed_ms attempts) w = Undecided v elapsed_ms w

abbrev pub Faults : View → View → Type 0
Faults v w = (w.state ≡ State.faulted) × (w.adapter ≡ v.adapter) × (w.config ≡ v.config)

abbrev pub counted : View → View
counted w = record w { attempts = min (w.attempts + 1) u8_max }

abbrev bumped : View → View
bumped w = record w { reruns = min (w.reruns + 1) u8_max }

abbrev reruns_done : View → Bool
reruns_done w = leb w.config.max_detect_reruns w.reruns

-- The settings are of the program's types.
abbrev pub Sized : View → Type 0
Sized w = w.config.max_detect_reruns ≤ 255

-- What the match at the end of a step makes of the view `w` before it.
abbrev pub Judged : View → Detection → View → Type 0
Judged w (ready a) x =
    (x.state ≡ State.ready) × (x.adapter ≡ some a) × (x.config ≡ w.config) × (x.reruns ≡ w.reruns)
Judged w (pending elapsed_ms attempts) x =
    (x.state ≡ w.state)
    × (x.adapter ≡ w.adapter)
    × (x.config ≡ w.config)
    × (((elapsed_ms < w.config.detect_timeout_ms) × (x.reruns ≡ w.reruns)) ⊎ Reran w x)

pub Failed-Faults :
    {W : Type 0} (clock : Clock W) (w : View) (e : ChargerError) (p : Charger W)
    → Failed clock w e p
    → After (Faults w) p
Failed-Faults clock w e p h =
    (ap (λ (x : View). x.state) h, ap (λ (x : View). x.adapter) h, ap (λ (x : View). x.config) h)

module _ {W : Type 0} (io : ChargerTransport W) (clock : Clock W) (w : View) where
  rerun-Ends :
      (request : ℕ) (reason : String)
      → reruns_done w ≡ false
      → Ends
          (Has w)
          (retry_detection io clock request reason)
          (λ u. Has (bumped w))
          (λ e. After (Faults w))
  unfolding retry_detection
  rerun-Ends request reason e =
      known-Ends _ (reruns_done w) _ (λ p h. ap reruns_done h)
        (branch-Ends (reruns_done w) _ _ (λ t. absurd (cc))
          (λ f.
            bind-Ends (λ u. Has (bumped w)) _ _ (modify-Ends _ (λ p h. ap bumped h))
              (λ u.
                known-Ends _ (bumped w).reruns _ (λ p h. ap (λ (x : View). x.reruns) h)
                  (bind-Ends (λ u. Has (bumped w)) _ _ (log-Ends clock (bumped w) request _ _)
                    (λ u.
                      weaken-Ends (λ a p h. h) (Failed-Faults clock (bumped w))
                        (or_fail-Ends clock (bumped w) request "detect.rerun" _ (
                          update_reg-Keeps io clock (view-IsTransparent io clock (bumped w)) _ _ _
                            _)))))))

  -- A failing end of the match.
  fails-Ends :
      {A : Type 0} {Q : A → Charger W → Type 0} (request : ℕ) (op : String) (e : ChargerError)
      → Ends (Has w) (fail clock request op e) Q (λ x. After (Faults w))
  fails-Ends request op e =
      weaken-Ends (λ a p h. h) (Failed-Faults clock w) (fail-Ends clock w request op e)

  reran : Sized w → reruns_done w ≡ false → Reran w (bumped w)
  reran size e = ground arith

  pending-Ends :
      (elapsed_ms : ℕ) (x : View)
      → Judged w (pending elapsed_ms 0) x
      → Ends
          (Has x)
          (still_pending io clock elapsed_ms)
          (λ d. After (Judged w d))
          (λ e. After (Faults w))
  pending-Ends elapsed_ms x h =
      gets-Ends _ (λ p e. subst (Judged w (pending elapsed_ms 0)) (sym e) h)

  overdue-Ends :
      (request elapsed_ms : ℕ) (late spent : Bool)
      → Sized w
      → late ≡ leb w.config.detect_timeout_ms elapsed_ms
      → spent ≡ reruns_done w
      → Ends
          (Has w)
          (overdue io clock request elapsed_ms late spent)
          (λ u. After (Judged w (pending elapsed_ms 0)))
          (λ e. After (Faults w))
  unfolding overdue
  overdue-Ends request elapsed_ms late spent size l s =
      branch-Ends late _ _
        (λ t.
          branch-Ends spent _ _ (λ b. fails-Ends request "detect.timeout" _)
            (λ b.
              let left : reruns_done w ≡ false = sym s ∙ b in
              weaken-Ends
                (λ u p h.
                  subst (Judged w (pending elapsed_ms 0)) (sym h)
                    (refl, refl, refl, inr (reran size left)))
                (λ e p h. h) (rerun-Ends request "timeout" left)))
        (λ f.
          let early : elapsed_ms < w.config.detect_timeout_ms = ground arith in
          pure-Ends tt (λ p h.
            subst (Judged w (pending elapsed_ms 0)) (sym h) (refl, refl, refl, inl (early, refl))))

  unstable-Ends :
      (request elapsed_ms : ℕ) (e : ChargerError) (spent : Bool)
      → Sized w
      → spent ≡ reruns_done w
      → Ends
          (Has w)
          (unstable io clock request e spent)
          (λ u. After (Judged w (pending elapsed_ms 0)))
          (λ e. After (Faults w))
  unstable-Ends request elapsed_ms e spent size s =
      branch-Ends spent _ _ (λ b. fails-Ends request "detect.unstable" e)
        (λ b.
          let left : reruns_done w ≡ false = sym s ∙ b in
          weaken-Ends
            (λ u p h.
              subst (Judged w (pending elapsed_ms 0)) (sym h)
                (refl, refl, refl, inr (reran size left)))
            (λ e p h. h) (rerun-Ends request "adapter_check_timeout" left))

  pub judged-Ends :
      (request status result elapsed_ms : ℕ) (r : Result AdapterType ChargerError)
      → Sized w
      → Ends
          (Has w)
          (judged io clock request status result elapsed_ms r)
          (λ d. After (Judged w d))
          (λ e. After (Faults w))
  unfolding judged
  judged-Ends request status result elapsed_ms (ok a) size =
      bind-Ends (λ u. Has w) _ _ (modify-Ends count_detection (λ p h. h))
        (λ u.
          bind-Ends (λ u. Has (record w { adapter = some a })) _ _
            (modify-Ends _ (λ p h. ap (λ (x : View). record x { adapter = some a }) h))
            (λ u.
              bind-Ends (λ u. Has (record w { adapter = some a; state = State.ready })) _ _
                (transition-Ends clock (record w { adapter = some a }) State.ready)
                (λ u.
                  bind-Ends (λ u. Has (record w { adapter = some a; state = State.ready })) _ _
                    (log-Ends clock _ request _ _)
                    (λ u.
                      pure-Ends (ready a)
                        (λ p h. subst (Judged w (ready a)) (sym h) (refl, refl, refl, refl))))))
  judged-Ends request status result elapsed_ms (err detection_not_complete) size =
      known-Ends _ (leb w.config.detect_timeout_ms elapsed_ms) _
        (λ p h. ap (λ (x : View). leb x.config.detect_timeout_ms elapsed_ms) h)
        (known-Ends _ (reruns_done w) _ (λ p h. ap reruns_done h)
          (bind-Ends (λ u. After (Judged w (pending elapsed_ms 0))) _ _
            (overdue-Ends request elapsed_ms _ _ size refl refl)
            (λ u. from_view (Judged w (pending elapsed_ms 0)) (pending-Ends elapsed_ms))))
  judged-Ends request status result elapsed_ms (err (adapter_check_timeout raw)) size =
      known-Ends _ (reruns_done w) _ (λ p h. ap reruns_done h)
        (bind-Ends (λ u. After (Judged w (pending elapsed_ms 0))) _ _
          (unstable-Ends request elapsed_ms _ _ size refl)
          (λ u. from_view (Judged w (pending elapsed_ms 0)) (pending-Ends elapsed_ms)))
  judged-Ends request status result elapsed_ms (err e) size = fails-Ends request "detect.decode" e
